-- ===== src/Mbox/Parse.antt =====
-- The callback of src/mbox.c that makes the short form of a message.
use libmbox.Base.{ℕ, List}
use libmbox.Base.Int.{ℤ}
use libmbox.Base.Outcome
use libmbox.Base.Outcome.{Outcome, ok}
use libmbox.Buf.Memory.{Allocator}
use libmbox.Date.{Tm}
use libmbox.MboxList.{MboxList, ts_add_tail}
use libmbox.MboxList.Heap.{Ptr, M, ◌>>=◌, pure}
use libmbox.Msg.{MboxMsgLite, msg_lite_create}
use libmbox.Parser.{MboxIoMsg}

-- `mboxIOMsgParseCallback`: the short form of a message, which stands at the address `v`, and the list
-- of the messages with it in a new node at `n`.
unfoldable pub io_msg_parse :
    Allocator
    → (Tm → ℤ)
    → (stack : List ℕ) → (n : Ptr) → MboxList
    → (v : ℕ) → MboxIoMsg
    → M (MboxMsgLite × MboxList)
io_msg_parse m mktime stack n completed v msg = do
  lite ← (λ h. Outcome.◌>>=◌ (msg_lite_create m mktime stack msg) (λ lite. ok (lite, h)))
  list ← ts_add_tail n completed v
  pure (lite, list)
