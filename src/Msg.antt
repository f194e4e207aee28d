-- ===== src/Msg.antt =====
-- src/mbox-msg.c: the short form of a message, and lists of messages. A message stands at an address;
-- what stands there is a function, since nothing here writes to a message that is in a list.
pub mod Preview
pub mod Order
pub mod Filter
mod Tests
use libmbox.Base.{
  ℕ, zero, suc, ◌+◌, Bool, true, false, not, ◌||◌, List, [], ◌∷◌, Option, none, some, ltb, leb,
  ◌==◌, if◌then◌else◌, length,
}
use libmbox.Base.Int.{ℤ, pos, negsuc, ltb_ℤ, is_minus_one}
use libmbox.Base.Outcome
use libmbox.Base.Outcome.{Outcome, ok, fault, out_of_fuel, blocked}
use libmbox.Buf.{MboxBuf, dup_raw, maybe_dup}
use libmbox.Buf.Compare.{n_case_cmp}
use libmbox.Buf.Kmp.{compute_prefix_table, contains_case_pattern_with_table}
use libmbox.Buf.Memory.{Allocator, fetch, read}
use libmbox.Date.{MboxDate, Tm, date_string_to_struct, date_struct_to_unix}
use libmbox.Date.Month.{date_format}
use libmbox.MboxList.{MboxList, list_new, add_head}
use libmbox.MboxList.Heap.{Ptr, M, ◌>>=◌, ◌>>◌, pure, load}
use libmbox.MboxList.QSort.{qsort}
use libmbox.Parser.{MboxIoMsg}
use libmbox.Parser.Headers
use libmbox.Parser.Headers.{Headers, parse_email_headers, headers_get}
use libmbox.RbTree.{Sign, less, equal, greater}

-- MBOX_BUF_PREVIEW_LEN
abbrev pub preview_len : ℕ
preview_len = 420

-- `struct _mboxMsgLite`; `none` stands for `NULL`.
pub record MboxMsgLite : Type 0 where
  pub msg_id : Option MboxBuf
  pub from : Option MboxBuf
  pub subject : Option MboxBuf
  pub date : Option MboxBuf
  pub preview : Option MboxBuf
  pub from_line : Option MboxBuf
  pub unix_timestamp : ℤ
  pub start : ℕ
  pub end : ℕ

-- The time of a message by its header "Date".
unfoldable pub timestamp : (Tm → ℤ) → Option MboxBuf → Outcome ℤ
timestamp mktime none = ok (pos 0)
timestamp mktime (some date) =
    Outcome.◌>>=◌ (date_string_to_struct date.block date_format)
      (λ (good, d). if is_minus_one d.tm_hour then ok (pos 0) else date_struct_to_unix mktime d)

-- `mboxMsgLiteFromBuffer`. `stack` is the uninitialised memory of the parser of headers; what
-- `mboxRBTreePrintKeysAsString` prints is left out.
unfoldable pub msg_lite_from_buffer :
    Allocator
    → (Tm → ℤ)
    → (stack : List ℕ) → MboxBuf
    → (start_offset end_offset : ℕ) → Outcome MboxMsgLite
unfolding timestamp
msg_lite_from_buffer m mktime stack buf start_offset end_offset =
    Outcome.◌>>=◌ (parse_email_headers m stack buf) (λ (headers, buf).
      Outcome.◌>>=◌ (fetch buf.block buf.offset preview_len) (λ bytes.
        Outcome.◌>>=◌ (dup_raw m bytes preview_len) (λ preview.
          Outcome.◌>>=◌ (timestamp mktime (headers_get headers Headers.date)) (λ unix_timestamp.
            Outcome.◌>>=◌ (maybe_dup m (headers_get headers Headers.msg_id)) (λ msg_id.
              Outcome.◌>>=◌ (maybe_dup m (headers_get headers Headers.from)) (λ from.
                Outcome.◌>>=◌ (maybe_dup m (headers_get headers Headers.subject)) (λ subject.
                  Outcome.◌>>=◌ (maybe_dup m (headers_get headers Headers.date)) (λ date.
                    Outcome.◌>>=◌ (maybe_dup m (headers_get headers Headers.from_line))
                      (λ from_line. ok (record {
                        msg_id = msg_id;
                        from = from;
                        subject = subject;
                        date = date;
                        preview = some preview;
                        from_line = from_line;
                        unix_timestamp = unix_timestamp;
                        start = start_offset;
                        end = end_offset;
                      }))))))))))

-- `mboxMsgLiteCreate`, whose releases are left out.
unfoldable pub msg_lite_create : Allocator → (Tm → ℤ) → List ℕ → MboxIoMsg → Outcome MboxMsgLite
msg_lite_create m mktime stack ctx =
    msg_lite_from_buffer m mktime stack ctx.buf ctx.start_offset ctx.end_offset

unfoldable pub compare_by_date : MboxMsgLite → MboxMsgLite → Sign
compare_by_date m1 m2 =
    if is_minus_one m1.unix_timestamp || is_minus_one m2.unix_timestamp
    then less
    else if ltb_ℤ m1.unix_timestamp m2.unix_timestamp
    then less
    else if ltb_ℤ m2.unix_timestamp m1.unix_timestamp
    then greater
    else equal

abbrev compare_senders : Option MboxBuf → Option MboxBuf → Outcome Sign
compare_senders none b = ok less
compare_senders (some a) none = ok less
compare_senders (some a) (some b) = n_case_cmp a b (if ltb a.len b.len then a.len else b.len)

unfoldable pub compare_by_from : MboxMsgLite → MboxMsgLite → Outcome Sign
compare_by_from m1 m2 = compare_senders m1.from m2.from

-- The test that the sort makes of a comparison: is it at most 0?
abbrev pub at_most : Sign → Bool
at_most less = true
at_most equal = true
at_most greater = false

-- On valid senders the comparison does not fault.
abbrev pub at_most_or : Outcome Sign → Bool
at_most_or (ok s) = at_most s
at_most_or fault = true
at_most_or out_of_fuel = true
at_most_or blocked = true

module _ (store : ℕ → MboxMsgLite) where
  abbrev pub by_date : ℕ → ℕ → Bool
  by_date a b = at_most (compare_by_date (store a) (store b))

  unfoldable pub sort_by_date : MboxList → M MboxList
  sort_by_date l = qsort by_date l false

  unfoldable pub sort_by_from : MboxList → M MboxList
  sort_by_from l = qsort (λ a b. at_most_or (compare_by_from (store a) (store b))) l false

-- Is the pattern in the sender of the message? Without a sender the call reads through `NULL`.
unfoldable pub sent_by : (table sender : List ℕ) → (len : ℕ) → Option MboxBuf → Outcome Bool
sent_by table sender len none = fault
sent_by table sender len (some from) =
    Outcome.◌>>=◌ (contains_case_pattern_with_table from table sender len)
      (λ found. ok (not (is_minus_one found)))

-- The loop of `mboxMsgListFilterBySender` at the node `n` with the message `msg`. `fresh` gives the
-- addresses that `malloc` returns.
unfoldable pub filter_loop :
    (search : ℕ → Outcome Bool) (fresh : ℕ → Ptr) → ℕ → Ptr → ℕ → MboxList → M MboxList
filter_loop search fresh zero n msg filtered = pure filtered
filter_loop search fresh (suc count) n msg filtered = do
  here ← (λ h. Outcome.◌>>=◌ (search msg) (λ b. ok (b, h)))
  kept ← if here then add_head (fresh count) filtered msg else pure filtered
  this ← load n
  next ← load this.next
  filter_loop search fresh count this.next next.value kept

-- `strlen`
unfoldable pub strlen : ℕ → List ℕ → ℕ → Outcome ℕ
strlen zero s i = out_of_fuel
strlen (suc fuel) s i =
    Outcome.◌>>=◌ (read s i)
      (λ c. let more = strlen fuel s (i + 1) in if c == 0 then ok i else more)

-- `mboxMsgListFilterBySender`; `none` stands for `NULL`.
unfoldable pub filter_by_sender :
    Allocator
    → (store : ℕ → MboxMsgLite) → (fresh : ℕ → Ptr) → MboxList
    → (sender : List ℕ) → M (Option MboxList)
filter_by_sender m store fresh l sender = if l.len == 0 then pure none else (do
  root ← load l.root
  len ← (λ h. Outcome.◌>>=◌ (strlen (length sender + 1) sender 0) (λ k. ok (k, h)))
  table ← (λ h. Outcome.◌>>=◌ (compute_prefix_table m sender len) (λ t. ok (t, h)))
  filtered ←
      filter_loop (λ v. sent_by table sender len (store v).from) fresh l.len l.root root.value
        list_new
  pure (some filtered))
