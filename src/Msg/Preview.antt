-- ===== src/Msg/Preview.antt =====
-- `mboxMsgLiteFromBuffer`: the fields of the short form, and the preview.
use libmbox.Base.{
  ℕ, ◌+◌, ◌≤◌, ◌<◌, ◌≡◌, ◌≢◌, refl, ◌⊎◌, inl, inr, Bool-cases, List, ◌∷◌, ◌++◌, Option, none, some,
  arith, leb, length, take, drop, length-take,
}
use libmbox.Base.Int.{ℤ, pos}
use libmbox.Base.Outcome.{ok, fault}
use libmbox.Buf.{MboxBuf, maybe_dup}
use libmbox.Buf.Copy.{dup_raw-text, dup-text}
use libmbox.Buf.Memory.{Allocator, fetch}
use libmbox.Buf.Valid.{IsValid, text}
use libmbox.Date.{Tm}
use libmbox.Date.Month.{two_digits, month_name, date_string_to_struct_refused}
use libmbox.Msg.{MboxMsgLite, preview_len, timestamp, msg_lite_from_buffer}
use libmbox.Parser.Headers
use libmbox.Parser.Headers.{Headers, Header, parse_email_headers, headers_get}

-- A field holds the text of the header, or there is none of both.
abbrev pub IsCopy : Option MboxBuf → Option MboxBuf → Type 0
IsCopy none none = Unit
IsCopy none (some b) = ⊥
IsCopy (some a) none = ⊥
IsCopy (some a) (some b) = text b ≡ text a

maybe_dup_lem :
    (m : Allocator) (o : Option MboxBuf)
    → ((b : MboxBuf) → o ≡ some b → IsValid b)
    → (o' : Option MboxBuf) × (maybe_dup m o ≡ ok o') × IsCopy o o'
unfolding maybe_dup
maybe_dup_lem m none valid = (none, refl, tt)
maybe_dup_lem m (some b) valid =
    let (b', run, (same, _, _, _, _)) = dup-text m b (valid b refl) in (some b', rw run refl, same)

-- The short form holds the headers, the 420 bytes from where the headers end, and the range.
pub record IsLite (headers : Headers) (b : MboxBuf) (time : ℤ) (start end : ℕ) (msg : MboxMsgLite)
    : Type 0 where
  pub msg_id : IsCopy (headers_get headers Headers.msg_id) msg.msg_id
  pub from : IsCopy (headers_get headers Headers.from) msg.from
  pub subject : IsCopy (headers_get headers Headers.subject) msg.subject
  pub date : IsCopy (headers_get headers Headers.date) msg.date
  pub from_line : IsCopy (headers_get headers Headers.from_line) msg.from_line
  pub preview :
      (p : MboxBuf) × (msg.preview ≡ some p) × (text p ≡ take preview_len (drop b.offset b.block))
  pub unix_timestamp : msg.unix_timestamp ≡ time
  pub start_lem : msg.start ≡ start
  pub end_lem : msg.end ≡ end

module _ (m : Allocator) (mktime : Tm → ℤ) (stack : List ℕ) (buf b : MboxBuf) (headers : Headers)
    (time : ℤ) (parsed : parse_email_headers m stack buf ≡ ok (headers, b))
    (timed : timestamp mktime (headers_get headers Headers.date) ≡ ok time)
    (valid : (h : Header) (v : MboxBuf) → headers_get headers h ≡ some v → IsValid v) where
  -- Where the headers have been parsed into valid buffers and the time of the message is known, `mboxMsgLiteFromBuffer`
  -- reads out of bounds if the block ends within 420 bytes behind the headers; otherwise it returns, and
  -- the short form holds copies of the headers, those 420 bytes, be they of the message or behind it, the time and the range.
  pub msg_lite_from_buffer-IsLite :
      (start end : ℕ)
      → ((length b.block < b.offset + preview_len)
          × (msg_lite_from_buffer m mktime stack buf start end ≡ fault))
        ⊎ ((b.offset + preview_len ≤ length b.block)
            × ((msg : MboxMsgLite) × (msg_lite_from_buffer m mktime stack buf start end ≡ ok msg)
                × IsLite headers b time start end msg))
  unfolding msg_lite_from_buffer fetch
  msg_lite_from_buffer-IsLite start end =
      elim (Bool-cases (leb (b.offset + preview_len) (length b.block))) [
        | inr short ↦ inl (ground arith, rw (parsed, short) refl)
        | inl enough ↦
            let bytes = take preview_len (drop b.offset b.block) in
            let inside : b.offset + preview_len ≤ length b.block = ground arith in
            let (preview, run, (same, _, _, _, _)) =
              dup_raw-text m bytes preview_len
                (omega (arith, length-take preview_len (drop b.offset b.block))) (omega arith) in
            let (id, id_run, id_same) =
              maybe_dup_lem m (headers_get headers Headers.msg_id) (valid Headers.msg_id) in
            let (from, from_run, from_same) =
              maybe_dup_lem m (headers_get headers Headers.from) (valid Headers.from) in
            let (subject, subject_run, subject_same) =
              maybe_dup_lem m (headers_get headers Headers.subject) (valid Headers.subject) in
            let (date, date_run, date_same) =
              maybe_dup_lem m (headers_get headers Headers.date) (valid Headers.date) in
            let (line, line_run, line_same) =
              maybe_dup_lem m (headers_get headers Headers.from_line) (valid Headers.from_line) in
            inr (
              inside,
              (
                record {
                  msg_id = id;
                  from = from;
                  subject = subject;
                  date = date;
                  preview = some preview;
                  from_line = line;
                  unix_timestamp = time;
                  start = start;
                  end = end;
                },
                rw (parsed, enough, run, timed, id_run, from_run, subject_run, date_run, line_run)
                    refl,
                record {
                  msg_id = id_same;
                  from = from_same;
                  subject = subject_same;
                  date = date_same;
                  from_line = line_same;
                  preview = (preview, refl, same);
                  unix_timestamp = refl;
                  start_lem = refl;
                  end_lem = refl;
                },
              ),
            )
      ]

-- A message whose header "Date" starts with a day and the name of a month other than February has the
-- time 0.
pub timestamp_refused :
    (mktime : Tm → ℤ) (date : MboxBuf) (day i : ℕ) (rest : List ℕ)
    → day < 100
    → i < 12
    → i ≢ 1
    → date.block ≡ two_digits day ++ (b' ' ∷ (month_name i ++ rest))
    → timestamp mktime (some date) ≡ ok (pos 0)
unfolding timestamp
timestamp_refused mktime date day i rest small lt other here =
    rw (here, date_string_to_struct_refused day i rest small lt other) refl
