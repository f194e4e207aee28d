-- ===== src/Index/Messages.antt =====
-- `mboxIdxGetMessages` and `mboxIdxLoad` of src/mbox-index.c: the messages of a batch, from one read of
-- the file, and those of an index.
use libmbox.Base.{ℕ, ◌+◌, ◌-◌, List, [], ◌∷◌, Option, none, some, ltb, if◌then◌else◌, length, drop}
use libmbox.Base.Int.{ℤ}
use libmbox.Base.Outcome.{Outcome, ok, fault, ◌>>=◌}
use libmbox.Buf.{MboxBuf}
use libmbox.Buf.Memory.{Allocator, malloc, copy, store}
use libmbox.Date.{Tm}
use libmbox.Index.{load_indexes, batch_load}
use libmbox.Io.{Os}
use libmbox.Msg.{MboxMsgLite, msg_lite_from_buffer}

-- Where the last offsets end.
abbrev last_end : ℕ → List (ℕ × ℕ) → ℕ
last_end e [] = e
last_end e ((_, e') ∷ rest) = last_end e' rest

-- The do loop over the offsets. `buf + k` is the block from there on; the parser reads no byte before.
unfoldable pub get_messages_loop :
    Allocator
    → (Tm → ℤ)
    → (stack block : List ℕ) → (diff : ℕ) → List (ℕ × ℕ)
    → Outcome (List MboxMsgLite)
get_messages_loop m mktime stack block diff [] = ok []
get_messages_loop m mktime stack block diff ((start, end) ∷ batch) =
    if (ltb start diff) then fault else if (ltb end start) then fault else (do
      let tmp : MboxBuf = record {
        block = drop (start - diff) block;
        offset = 0;
        len = end - start;
        capacity = 0;
      }
      msg ← msg_lite_from_buffer m mktime stack tmp start end
      msgs ← get_messages_loop m mktime stack block diff batch
      ok (msg ∷ msgs))

-- The whole call. A failed `pread` returns -1, and the code writes its terminator there; offsets that
-- do not ascend make a size that is negative.
unfoldable pub get_messages :
    Allocator → (Tm → ℤ) → (stack : List ℕ) → Os → List (ℕ × ℕ) → Outcome (List MboxMsgLite)
get_messages m mktime stack os [] = fault
get_messages m mktime stack os ((diff, end) ∷ batch) =
    let size = last_end end batch - diff in
    let run : Option (List ℕ) → Outcome (List MboxMsgLite) = λ r. elim r [
      | none ↦ fault
      | some d ↦ (do
        block ← copy (malloc m (size + 10)) 0 d
        block ← store block (length d) 0
        get_messages_loop m mktime stack block diff ((diff, end) ∷ batch))
    ] in
    if ltb (last_end end batch) diff then fault else run (os.pread size diff)

-- The batches in the pool, from the `i`-th on: each gives its messages. In which order they come into
-- the one list is left open, so they stay apart here.
unfoldable pub get_batches :
    Allocator
    → (Tm → ℤ)
    → (stack : List ℕ) → (ℕ → Os)
    → ℕ
    → List (List (ℕ × ℕ))
    → Outcome (List (List MboxMsgLite))
get_batches m mktime stack os i [] = ok []
get_batches m mktime stack os i (batch ∷ batches) = do
  msgs ← get_messages m mktime stack (os i) batch
  rest ← get_batches m mktime stack os (i + 1) batches
  ok (msgs ∷ rest)

-- `mboxIdxLoad` of src/mbox-index.c; `none` stands for `NULL`.
unfoldable pub load :
    Allocator
    → (Tm → ℤ)
    → (stack : List ℕ) → (index_os : Os) → (opened : Option ℕ) → (ℕ → Os)
    → Outcome (Option (List (List MboxMsgLite)))
load m mktime stack index_os opened os = do
  indexes ← load_indexes m index_os opened
  let read_all : List (ℕ × ℕ) → Outcome (Option (List (List MboxMsgLite))) = λ l. (do
    batches ← batch_load l
    msgs ← get_batches m mktime stack os 0 batches
    ok (some msgs))
  elim indexes [ none ↦ ok none | some l ↦ read_all l ]
