-- ===== src/Mbox/Read.antt =====
-- The messages of one reader follow on one another.
use libmbox.Base.{ℕ, zero, suc, ◌+◌, ◌≡◌, refl, sym, subst, List, [], ◌∷◌, Option, none, some}
use libmbox.Base.Outcome.{Outcome}
use libmbox.Buf.Memory.{Allocator}
use libmbox.Io.{Os}
use libmbox.Mbox.{after_message, read_messages}
use libmbox.Parser.{MboxParserCtx, MboxIoMsg, get_next_message}
use libmbox.Parser.Messages.{
  Ensures, ok-Ensures, bind-Ensures, if-Ensures, IsMessage, get_next_message-IsMessage,
}

-- The first message starts at `n`, each ends as many bytes behind its start as it has and where the
-- next one starts, and the last one ends at `e`.
abbrev pub Follow : ℕ → List MboxIoMsg → ℕ → Type 0
Follow n [] e = n ≡ e
Follow n (msg ∷ msgs) e =
    (msg.start_offset ≡ n) × (msg.end_offset ≡ n + msg.buf.len) × Follow msg.end_offset msgs e

abbrev pub Read : ℕ → List MboxIoMsg × MboxParserCtx → Type 0
Read n (msgs, ctx) = Follow n msgs ctx.ioctx.offset

next-Read :
    (msg : MboxIoMsg) (n : ℕ) (msgs : List MboxIoMsg) (ctx ctx' : MboxParserCtx)
    → IsMessage n (some msg, ctx)
    → Read ctx.ioctx.offset (msgs, ctx')
    → Read n (msg ∷ msgs, ctx')
next-Read msg n msgs ctx ctx' (from, to, stop) rest =
    (from, to, subst (λ k. Follow k msgs ctx'.ioctx.offset) stop rest)

after_message-Read :
    (n : ℕ) (msg : Option MboxIoMsg) (next : MboxParserCtx)
    (rest : Outcome (List MboxIoMsg × MboxParserCtx))
    → IsMessage n (msg, next)
    → Ensures (Read next.ioctx.offset) rest
    → Ensures (Read n) (after_message msg next rest)
unfolding after_message
after_message-Read n none next rest kept later = ok-Ensures (Read n) ([], next) (sym kept)
after_message-Read n (some msg) next rest here later =
    if-Ensures (Read n) next.done _ _
      (ok-Ensures (Read n) (msg ∷ [], next) (next-Read msg n [] next next here refl))
      (bind-Ensures (Read n) rest _ (λ (msgs, last) run.
        ok-Ensures (Read n) (msg ∷ msgs, last)
          (next-Read msg n msgs next last here (later (msgs, last) run))))

-- Where the loop of a reader ends, its messages follow on one another from the place where it started
-- to the place where it stands.
read_messages-Read :
    (m : Allocator) (rounds fuel : ℕ) (os os' : ℕ → ℕ → Os) (ctx : MboxParserCtx)
    → Ensures (Read ctx.ioctx.offset) (read_messages m rounds fuel os os' ctx)
unfolding read_messages
read_messages-Read m zero fuel os os' ctx = λ a e. cc
read_messages-Read m (suc rounds) fuel os os' ctx =
    let n = ctx.ioctx.offset in
    bind-Ensures (Read n) (get_next_message m fuel (os rounds) (os' rounds) ctx) _
      (λ (msg, next) run.
        after_message-Read n msg next (read_messages m rounds fuel os os' next)
          (get_next_message-IsMessage m fuel (os rounds) (os' rounds) ctx (msg, next) run)
          (read_messages-Read m rounds fuel os os' next))
