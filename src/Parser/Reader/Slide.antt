-- ===== src/Parser/Reader/Slide.antt =====
-- What `mboxParserCtxGetNextMessage` does to the buffer before it looks for a message.
use libmbox.Base.{
  ℕ, zero, suc, ◌+◌, ◌-◌, ◌^◌, ◌≤◌, ◌<◌, ◌≡◌, refl, ap, ◌∙◌, inl, inr, List, [], ◌∷◌, arith, ◌==◌,
  ==→eq, Bool-cases, if◌then◌else◌, length, byte_at, set, take, drop, length-take, length-drop,
  length-set, get_or-take, get_or-set_self, get_or-set_ne,
}
use libmbox.Base.Outcome.{ok}
use libmbox.Buf.{MboxBuf, set_len, set_offset, slice, sub_size}
use libmbox.Buf.CString.{get_or-append_left}
use libmbox.Buf.Memory.{fetch-ok, copy-ok, copied, length-copied, store-ok}
use libmbox.Buf.Valid.{IsRoomy}
use libmbox.Io.{MboxIoCtx}
use libmbox.Io.Window.{get_or-drop}
use libmbox.Parser.Reader.{Stands}

-- What the start of the call makes of the buffer: the bytes from the offset on stand at its front.
pub record Slid (b b' : MboxBuf) : Type 0 where
  pub len : b'.len ≡ b.len - b.offset
  pub same : (i : ℕ) → i < b'.len → byte_at b'.block i ≡ byte_at b.block (b.offset + i)
  pub nul : byte_at b'.block b'.len ≡ 0
  pub roomy : IsRoomy b'
  pub capacity : b'.capacity ≡ b.capacity

sub_size_lem : (i j : ℕ) → j ≤ i → i < 2 ^ 63 → sub_size i j ≡ i - j
sub_size_lem i j le lt = omega arith

emptied_lem :
    (b moved : MboxBuf) (k : ℕ)
    → IsRoomy b
    → length moved.block ≡ length b.block
    → moved.capacity ≡ b.capacity
    → k ≡ b.len - b.offset
    → ((i : ℕ) → i < k → byte_at moved.block i ≡ byte_at b.block (b.offset + i))
    → (b' : MboxBuf) × (set_len moved k ≡ ok b') × Slid b b'
unfolding set_len
emptied_lem b moved k r size cap rest same = (
  record moved { block = set moved.block k 0; len = k },
  rw (store-ok moved.block k 0 (omega (arith, r.valid.held))) refl,
  record {
    len = rest;
    same = λ i lt. get_or-set_ne moved.block k i 0 0 (λ e. absurd (omega arith)) ∙ same i lt;
    nul = get_or-set_self moved.block k 0 0 (omega (arith, r.valid.held));
    roomy = record {
      valid = record {
        room = omega (arith, r.valid.room, length-set moved.block k 0);
        fits = omega (arith, r.valid.fits);
        held = omega (arith, r.valid.held, length-set moved.block k 0);
        small = omega (arith, r.valid.small);
      };
      spare = omega (arith, r.spare);
    };
    capacity = cap;
  },
)

-- Both branches of the start of the call.
pub slid_lem :
    (b : MboxBuf)
    → IsRoomy b
    → b.offset ≤ b.len
    → (moved b' : MboxBuf) × ((if sub_size b.len b.offset == 0
          then ok b
          else slice b b.offset 0 (sub_size b.len b.offset))
        ≡ ok moved)
      × (set_len moved (sub_size b.len b.offset) ≡ ok b')
      × Slid b b'
unfolding slice
slid_lem b r le =
    let k = b.len - b.offset in
    let e : sub_size b.len b.offset ≡ k =
      sub_size_lem b.len b.offset le (omega (arith, r.valid.small, r.spare)) in
    rw e (elim (Bool-cases (k == 0)) [
      | inl nothing ↦
          let z : k ≡ 0 = ==→eq k 0 nothing in
          let (b', run, s) = emptied_lem b b k r refl refl refl (λ i lt. absurd (omega arith)) in
          (b, b', rw nothing refl, run, s)
      | inr some_left ↦
          let d = take k (drop b.offset b.block) in
          let size : length d ≡ k = omega (
            arith,
            r.valid.held,
            length-take k (drop b.offset b.block),
            length-drop b.offset b.block,
          ) in
          let inside : 0 + length d ≤ length b.block = omega (arith, r.valid.held) in
          let block₁ = copied b.block 0 d in
          let size₁ : length block₁ ≡ length b.block = length-copied b.block 0 d inside in
          let moved : MboxBuf = record b { block = set block₁ k 0; len = k } in
          let (b', run, s) =
            emptied_lem b moved k r (length-set block₁ k 0 ∙ size₁) refl refl (λ i lt.
              get_or-set_ne block₁ k i 0 0 (λ e. absurd (omega arith))
              ∙ get_or-append_left d (drop (0 + length d) b.block) i (omega arith)
              ∙ get_or-take k i (drop b.offset b.block) 0 lt
              ∙ get_or-drop b.offset b.block i) in
          (
            moved,
            b',
            rw
                (
                  some_left,
                  fetch-ok b.block b.offset k (omega (arith, r.valid.held)),
                  copy-ok b.block 0 d inside,
                  store-ok block₁ k 0 (omega (arith, r.valid.held)),
                )
                refl,
            run,
            s,
          )
    ])

pub Slid-Stands :
    (file : List ℕ) (n : ℕ) (io : MboxIoCtx) (b : MboxBuf)
    → Stands file n io
    → Slid io.buf b
    → Stands file (n + io.buf.offset) (record io { buf = set_offset b 0 })
unfolding set_offset
Slid-Stands file n io b s slid =
    let w = s.window in
    record {
      window = record {
        same = λ i lt.
            let e : n + (io.buf.offset + i) ≡ n + io.buf.offset + i = omega arith in
            slid.same i lt
            ∙ w.same (io.buf.offset + i) (omega (arith, slid.len))
            ∙ ap (byte_at file) e;
        nul = slid.nul;
        place = omega (arith, w.place, slid.len, s.within);
        inside = omega (arith, w.inside, slid.len, s.within);
        roomy = record {
          valid = record {
            room = slid.roomy.valid.room;
            fits = slid.roomy.valid.fits;
            held = slid.roomy.valid.held;
            small = slid.roomy.valid.small;
          };
          spare = slid.roomy.spare;
        };
        cap = omega (arith, w.cap, slid.capacity);
      };
      within = omega arith;
      live = s.live;
    }

-- Lists that agree in their first `k` bytes.
pub take_same :
    (k : ℕ) (xs ys : List ℕ)
    → k ≤ length xs
    → k ≤ length ys
    → ((i : ℕ) → i < k → byte_at xs i ≡ byte_at ys i)
    → take k xs ≡ take k ys
take_same zero xs ys in_xs in_ys same = refl
take_same (suc k) [] ys in_xs in_ys same = absurd (omega arith)
take_same (suc k) (x ∷ xs) [] in_xs in_ys same = absurd (omega arith)
take_same (suc k) (x ∷ xs) (y ∷ ys) in_xs in_ys same =
    ap (λ z. z ∷ take k xs) (same 0 (omega arith))
    ∙ ap (λ zs. y ∷ zs)
        (take_same k xs ys (omega arith) (omega arith) (λ i lt. same (suc i) (omega arith)))
