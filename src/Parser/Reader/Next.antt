-- ===== src/Parser/Reader/Next.antt =====
-- `mboxParserCtxGetNextMessage` on a file.
use libmbox.Base.{
  ℕ, ◌+◌, ◌-◌, ◌*◌, ◌^◌, ◌≤◌, ◌<◌, ◌≡◌, refl, sym, ap, subst, ◌∙◌, inl, inr, true, List, arith, leb,
  ◌||◌, ◌==◌, if◌then◌else◌, length, byte_at, take, drop, length-take,
}
use libmbox.Base.Outcome.{ok}
use libmbox.Buf.{MboxBuf, set_len, set_offset, slice, dup_raw, sub_size}
use libmbox.Buf.Copy.{dup_raw-text}
use libmbox.Buf.Memory.{Allocator, fetch, fetch-ok}
use libmbox.Buf.Valid.{Grants, IsValid, text}
use libmbox.Io.{Os, MboxIoCtx, is_io_eof}
use libmbox.Io.Window.{Serves, IsClean}
use libmbox.Parser.{MboxParserCtx, seek_headers, seek_next_from_line, get_next_message}
use libmbox.Parser.Reader.{Stands, IsFrom, FromFree, or_true}
use libmbox.Parser.Reader.FromLine.{seek_next_from_line-FoundFrom}
use libmbox.Parser.Reader.Line.{AtFrom, AtEnd}
use libmbox.Parser.Reader.Headers.{AtBody, seek_headers-FoundBody}
use libmbox.Parser.Reader.Piece.{IsReady, NextMessage, placed-Stands, piece_bytes, done_alive}
use libmbox.Parser.Reader.Slide.{slid_lem, Slid-Stands}

module _ (m : Allocator) (g : Grants m) (file : List ℕ) (clean : IsClean file)
    (fit : length file < 2 ^ 61) where
  -- The copy of the message.
  message_lem :
      (start : ℕ) (b : MboxBuf)
      → ((i : ℕ) → i < b.len → byte_at b.block i ≡ byte_at file (start + i))
      → b.offset ≤ b.len
      → b.len < length b.block
      → start + b.offset ≤ length file
      → (bytes : List ℕ) × (full_msg : MboxBuf) × (fetch b.block 0 b.offset ≡ ok bytes)
        × (dup_raw m bytes b.offset ≡ ok full_msg)
        × (full_msg.len ≡ b.offset)
        × (text full_msg ≡ take full_msg.len (drop start file))
        × IsValid full_msg
  message_lem start b same le room inside =
      let bytes = take b.offset b.block in
      let size : length bytes ≡ b.offset = omega (arith, length-take b.offset b.block) in
      let (full, run, (copied, offset, cap, valid, _)) =
        dup_raw-text m bytes b.offset (omega arith) (omega arith) in
      let len : full.len ≡ b.offset =
        omega (arith, valid.held, length-take full.len full.block, ap length copied) in
      (
        bytes,
        full,
        fetch-ok b.block 0 b.offset (omega arith),
        run,
        len,
        copied
            ∙ piece_bytes file start b same le room inside
            ∙ ap (λ k. take k (drop start file)) (sym len),
        valid,
      )

  module _ (fuel : ℕ) (os os' : ℕ → Os) (ctx : MboxParserCtx) (moved emptied : MboxBuf)
      (slide : (if sub_size ctx.ioctx.buf.len ctx.ioctx.buf.offset == 0
          then ok ctx.ioctx.buf
          else slice ctx.ioctx.buf ctx.ioctx.buf.offset 0
              (sub_size ctx.ioctx.buf.len ctx.ioctx.buf.offset))
        ≡ ok moved)
      (empty : set_len moved (sub_size ctx.ioctx.buf.len ctx.ioctx.buf.offset) ≡ ok emptied) where
    abbrev start : ℕ
    start = ctx.ioctx.offset

    abbrev front : MboxIoCtx
    front = record ctx.ioctx { buf = set_offset emptied 0 }

    -- The message that ends before a line with "From ".
    from_lem :
        (io₂ io' : MboxIoCtx)
        → seek_headers m fuel os front ≡ ok (true, io₂)
        → AtBody file start front io₂
        → seek_next_from_line m fuel os' io₂ ≡ ok (true, io')
        → AtFrom file start io₂ io'
        → NextMessage file ctx (get_next_message m fuel os os' ctx)
    unfolding get_next_message
    from_lem io₂ io' headers body from at =
        let w = at.stands.window in
        let (bytes, full, run, copy, len, same, valid) =
          message_lem start io'.buf w.same at.stands.within w.roomy.valid.held
            (omega (arith, w.inside, at.stands.within)) in
        let (k, size, ge, blank, blank_end) = body.blank in
        let (p, place, after, from_here, free) = at.from in
        let kept : io'.offset ≡ start = omega (arith, at.offset, body.offset) in
        let end : ℕ = io'.offset + io'.buf.offset in
        let before_end : end - 1 ≡ p = omega arith in
        let last : io'.end_offset ≡ ctx.ioctx.end_offset = omega (arith, at.last, body.last) in
        inl (
          record { buf = full; start_offset = start; end_offset = end },
          record ctx {
            done = if leb io'.end_offset end || is_io_eof io'.err then true else ctx.done;
            parsed = ctx.parsed + 1;
            ioctx = record io' { offset = end };
          },
          rw (slide, empty, headers, from, run, copy) refl,
          refl,
          record {
            size = omega arith;
            inside = omega (arith, w.inside, at.stands.within);
            bytes = same;
            valid = valid;
            blank = (
              k,
              size,
              omega arith,
              blank,
              omega arith,
              subst (λ i. FromFree file i (end - 1)) blank_end
                  (subst (λ j. FromFree file (start + io₂.buf.offset) j) (sym before_end) free),
            );
          },
          inl (
            record { stands = placed-Stands file start io' at.stands end; place = omega arith },
            refl,
            omega arith,
            subst (λ j. IsFrom file j) (sym before_end) from_here,
            last,
            done_alive (leb io'.end_offset end) (is_io_eof io'.err) ctx.done at.stands.live
                ∙ ap (λ l. if leb l end then true else ctx.done) last,
          ),
        )

    -- The message that ends where the file does, or shortly before.
    end_lem :
        (io₂ io' : MboxIoCtx)
        → seek_headers m fuel os front ≡ ok (true, io₂)
        → AtBody file start front io₂
        → seek_next_from_line m fuel os' io₂ ≡ ok (true, io')
        → AtEnd file start io₂ io'
        → NextMessage file ctx (get_next_message m fuel os os' ctx)
    unfolding get_next_message
    end_lem io₂ io' headers body from at =
        let (bytes, full, run, copy, len, same, valid) =
          message_lem start io'.buf at.same at.within at.held
            (omega (arith, at.whole, at.within)) in
        let (k, size, ge, blank, blank_end) = body.blank in
        let kept : io'.offset ≡ start = omega (arith, at.offset, body.offset) in
        let end : ℕ = io'.offset + io'.buf.offset in
        inl (
          record { buf = full; start_offset = start; end_offset = end },
          record ctx {
            done = if leb io'.end_offset end || is_io_eof io'.err then true else ctx.done;
            parsed = ctx.parsed + 1;
            ioctx = record io' { offset = end };
          },
          rw (slide, empty, headers, from, run, copy) refl,
          refl,
          record {
            size = omega arith;
            inside = omega (arith, at.whole, at.within);
            bytes = same;
            valid = valid;
            blank = (
              k,
              size,
              omega arith,
              blank,
              omega (arith, at.on),
              λ q from_k to. at.free q (omega arith) (omega arith),
            );
          },
          inr (
            ap (λ e. if leb io'.end_offset end || e then true else ctx.done) at.ended
                ∙ ap (λ e. if e then true else ctx.done) (or_true (leb io'.end_offset end)),
            omega (arith, at.whole, at.near),
          ),
        )

    rest_lem :
        ((i : ℕ) → Serves file (os i))
        → ((i : ℕ) → Serves file (os' i))
        → Stands file start front
        → 2 * length file < fuel
        → NextMessage file ctx (get_next_message m fuel os os' ctx)
    unfolding get_next_message
    rest_lem serves serves' s enough =
        elim (seek_headers-FoundBody m g file clean fit fuel os start front serves s
          (omega arith)) [
            | inr (io₂, headers, kept, ended, none_there) ↦ inr (
              record ctx { ioctx = io₂ },
              rw (slide, empty, headers) refl,
              kept,
              inl (ended, λ q ge. none_there q (omega arith)),
            )
            | inl (io₂, headers, body) ↦
                elim (seek_next_from_line-FoundFrom m g file clean fit fuel os' start io₂ serves'
                  body.stands (omega arith)) [
                    | inl (io', from, inl at) ↦ from_lem io₂ io' headers body from at
                    | inl (io', from, inr at) ↦ end_lem io₂ io' headers body from at
                    | inr (io', from, kept, end, past, free, near, inside, on) ↦ inr (
                      record ctx { ioctx = io' },
                      rw (slide, empty, headers, from) refl,
                      omega (arith, body.offset),
                      inr (
                        omega (arith, body.last),
                        (let (k, size, ge, blank, blank_end) = body.blank in
                            (
                              k,
                              size,
                              start + io'.buf.offset,
                              omega arith,
                              blank,
                              omega arith,
                              subst (λ i. FromFree file i (start + io'.buf.offset)) blank_end free,
                              near,
                              inside,
                            )),
                      ),
                    )
                  ]
          ]

  -- On a file of fewer than 2 ^ 61 bytes without NUL that `pread` serves, with memory to be had and fuel
  -- for twice its length, `mboxParserCtxGetNextMessage` returns from every state in which the buffer
  -- holds the bytes of the file from some place up to where the next read starts, the reader's offset
  -- is where the buffer's offset stands in the file, and the end has not been met. A message that it
  -- gives is the piece of the file from the reader's offset on that its two offsets say; it has a
  -- blank line, and no line that starts with "From " begins behind the blank line and inside the
  -- message. Behind it such a line begins, the reader is in such a state again, at the message's
  -- end, and becomes done just if its range ends there or before; or the reader is done and at most
  -- ten bytes of the file are left. It gives no message, and leaves the reader's offset, only where the
  -- whole file has been read and there is no "\n\n" in it from that offset on; or where more than the
  -- reader's range has been read, and in that is a blank line, but no line with "From " behind it, or
  -- only one that begins in the last ten bytes read.
  pub get_next_message-NextMessage :
      (fuel : ℕ) (os os' : ℕ → Os) (n : ℕ) (ctx : MboxParserCtx)
      → ((i : ℕ) → Serves file (os i))
      → ((i : ℕ) → Serves file (os' i))
      → IsReady file n ctx
      → 2 * length file < fuel
      → NextMessage file ctx (get_next_message m fuel os os' ctx)
  get_next_message-NextMessage fuel os os' n ctx serves serves' ready enough =
      let s = ready.stands in
      let (moved, emptied, slide, empty, slid) = slid_lem ctx.ioctx.buf s.window.roomy s.within in
      rest_lem fuel os os' ctx moved emptied slide empty serves serves'
        (subst (λ k. Stands file k (record ctx.ioctx { buf = set_offset emptied 0 }))
          (sym ready.place) (Slid-Stands file n ctx.ioctx emptied s slid))
        enough
