-- ===== src/Msg/Tests.antt =====
-- Two messages in a list, and a message with no header.
use libmbox.Base.{
  ℕ, ◌+◌, ◌≡◌, ◌⊎◌, refl, true, false, Bool-cases, inl, inr, List, [], ◌∷◌, none, some, arith, ◌==◌,
  length, if◌then◌else◌, ◌<◌, ◌≤◌,
}
use libmbox.Base.Int.{to_int, pos}
use libmbox.Base.Outcome.{ok, fault}
use libmbox.Buf.{MboxBuf}
use libmbox.Buf.Kmp.{
  compute_prefix_table, contains_case_pattern_with_table, match_loop, int_inc, table_loop,
  fall_back,
}
use libmbox.Buf.Char.{to_lower}
use libmbox.Buf.Memory.{Allocator, malloc, fresh, store, read}
use libmbox.MboxList.{MboxList}
use libmbox.MboxList.Heap.{Heap, node}
use libmbox.MboxList.Heap.Access.{Runs}
use libmbox.MboxList.Heap.Chain.{Cells}
use libmbox.MboxList.QSort.Main.{Sorted}
use libmbox.MboxList.Rep.{IsList, contents}
use libmbox.Msg.{
  MboxMsgLite, preview_len, sort_by_date, sent_by, strlen, filter_by_sender, msg_lite_from_buffer,
  timestamp,
}
use libmbox.Msg.Filter.{filter, reverse_onto, IsFresh, filter_by_sender-filter}
use libmbox.Msg.Order.{no_later, sort_by_date-Sorted}
use libmbox.Msg.Preview.{IsLite, msg_lite_from_buffer-IsLite}
use libmbox.RbTree.{tree_new, get}
use libmbox.Parser.Headers
use libmbox.Parser.Headers.{
  Header, Headers, parse_email_headers, headers_get, headers_loop, skip_lines,
}

abbrev heap : Allocator
heap = record { junk = λ i. 165; grants = λ n. true }

-- The nodes 1 and 2 in a ring, with the messages 10 and 20.
abbrev nodes : Heap
nodes a = if a == 1 then some (node 10 2 2) else if a == 2 then some (node 20 1 1) else none

abbrev two : MboxList
two = record { len = 2; root = 1; locked = false; freedata = false }

abbrev cells : Cells
cells = (1, 10) ∷ (2, 20) ∷ []

two-IsList : IsList nodes two cells
two-IsList = record {
  ring = (
    refl,
    ((λ e. absurd (omega arith)), refl, refl, ((λ e. absurd (omega arith)), refl, refl, tt)),
  );
  count = refl;
}

-- The sender of message 10 is "a", that of the others "b".
abbrev letter : ℕ → MboxBuf
letter c = record { block = c ∷ 0 ∷ []; offset = 0; len = 1; capacity = 1 }

abbrev messages : ℕ → MboxMsgLite
messages a = record {
  msg_id = none;
  from = some (letter (if a == 10 then b'a' else b'b'));
  subject = none;
  date = none;
  preview = none;
  from_line = none;
  unix_timestamp = pos a;
  start = 0;
  end = 0;
}

sort_by_date-Sorted_example :
    Runs (sort_by_date messages two nodes) (Sorted (no_later messages) cells nodes)
sort_by_date-Sorted_example =
    sort_by_date-Sorted messages nodes two cells (λ a. refl) two-IsList refl (omega arith)

abbrev heap_above : ℕ → ℕ
heap_above k = k + 100

above-IsFresh : IsFresh nodes heap_above
above-IsFresh = record {
  solid = λ k e. absurd (omega arith);
  distinct = λ j k ne e. ne (omega arith);
  unused = λ k. ground arith;
}

-- "a"
abbrev a_text : List ℕ
a_text = b'a' ∷ 0 ∷ []

sent_by_a : (v : ℕ) → sent_by (0 ∷ []) a_text 1 (messages v).from ≡ ok (v == 10)
unfolding sent_by contains_case_pattern_with_table match_loop to_int fall_back to_lower read
sent_by_a v = elim (Bool-cases (v == 10)) [ inl e ↦ rw e refl | inr e ↦ rw e refl ]

a_length : strlen (length a_text + 1) a_text 0 ≡ ok 1
unfolding strlen read
a_length = refl

a_table : compute_prefix_table heap a_text 1 ≡ ok (0 ∷ [])
unfolding compute_prefix_table table_loop int_inc store malloc fresh
a_table = refl

filter_by_sender-filter_example :
    Runs (filter_by_sender heap messages heap_above two a_text nodes) (λ o g.
      ((cells ≡ []) × (o ≡ none) × (g ≡ nodes))
      ⊎ ((f : MboxList) × (zs : Cells) × (o ≡ some f)
          × IsList g f zs
          × (contents zs ≡ reverse_onto (filter (λ v. v == 10) (contents cells)) [])
          × IsList g two cells))
filter_by_sender-filter_example =
    filter_by_sender-filter heap messages nodes heap_above two cells a_text (0 ∷ []) 1
      (λ v. v == 10) two-IsList above-IsFresh a_length a_table sent_by_a

-- A message without headers or a body, in a block of the size of the preview.
abbrev empty_message : MboxBuf
unfolding malloc fresh
empty_message = record { block = 0 ∷ malloc heap 419; offset = 0; len = 0; capacity = 419 }

no_headers : parse_email_headers heap [] empty_message ≡ ok (tree_new, empty_message)
unfolding empty_message parse_email_headers skip_lines headers_loop read
no_headers = refl

no_date : timestamp (λ t. pos 0) (headers_get tree_new Headers.date) ≡ ok (pos 0)
unfolding timestamp headers_get tree_new get
no_date = refl

no_header : (h : Header) (v : MboxBuf) → headers_get tree_new h ≡ some v → ⊥
unfolding headers_get tree_new get
no_header h v e = cc

msg_lite_from_buffer-IsLite_example :
    ((length empty_message.block < empty_message.offset + preview_len)
      × (msg_lite_from_buffer heap (λ t. pos 0) [] empty_message 3 3 ≡ fault))
    ⊎ ((empty_message.offset + preview_len ≤ length empty_message.block)
        × ((msg : MboxMsgLite) × (msg_lite_from_buffer heap (λ t. pos 0) [] empty_message 3 3
              ≡ ok msg)
            × IsLite tree_new empty_message (pos 0) 3 3 msg))
msg_lite_from_buffer-IsLite_example =
    msg_lite_from_buffer-IsLite heap (λ t. pos 0) [] empty_message empty_message tree_new (pos 0)
      no_headers no_date (λ h v e. absurd (no_header h v e)) 3 3
