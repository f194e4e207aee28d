-- ===== src/Mbox.antt =====
-- src/mbox.c: the cut of a file into ranges, one for each reader. The pool runs the same job on every
-- context, and a job touches its own context only, so the jobs are a map over the contexts.
pub mod Ranges
pub mod Read
pub mod Pieces
pub mod Single
pub mod Parse
pub mod Readers
mod Tests
use libmbox.Base.{
  ℕ, zero, suc, ◌+◌, ◌*◌, ◌/◌, Bool, true, false, List, [], ◌∷◌, Option, none, some, leb, ltb,
  if◌then◌else◌,
}
use libmbox.Base.Outcome.{Outcome, ok, fault, out_of_fuel, ◌>>=◌}
use libmbox.Buf.Memory.{Allocator}
use libmbox.Io.{Os, MboxIoCtx}
use libmbox.Parser.{MboxParserCtx, MboxIoMsg, get_next_message, parser_ctx_new, seek_start}

-- The context `i` before its start is sought.
unfoldable pub init_ctx : Allocator → (i chunk_size file_size : ℕ) → MboxParserCtx
unfolding parser_ctx_new
init_ctx m i chunk_size file_size =
    let ctx = parser_ctx_new m i file_size in
    record ctx {
      ioctx = record ctx.ioctx {
        start_offset = i * chunk_size;
        offset = i * chunk_size;
        file_offset = i * chunk_size;
        file_size = file_size;
      };
    }

-- The contexts from `i` on, `left` of them, each with its start sought.
unfoldable pub sought :
    Allocator
    → (fuel : ℕ) (os : ℕ → ℕ → Os) (i left chunk_size file_size : ℕ) → Outcome (List MboxParserCtx)
unfolding init_ctx seek_start
sought m fuel os i zero chunk_size file_size = ok []
sought m fuel os i (suc left) chunk_size file_size = do
  ctx ← seek_start m fuel (os i) (init_ctx m i chunk_size file_size)
  rest ← sought m fuel os (i + 1) left chunk_size file_size
  ok (ctx ∷ rest)

abbrev pub range_start : MboxParserCtx → ℕ
range_start ctx = ctx.ioctx.start_offset

-- Each range ends where the next one starts, the last one with the file. The first context keeps its
-- offset, where it is not the last.
unfoldable pub bookend : List MboxParserCtx → List MboxParserCtx
bookend [] = []
bookend (ctx ∷ []) =
    record ctx {
      ioctx = record ctx.ioctx { end_offset = ctx.ioctx.file_size; offset = range_start ctx };
    }
    ∷ []
bookend (ctx ∷ next ∷ rest) =
    record ctx { ioctx = record ctx.ioctx { end_offset = range_start next } }
    ∷ bookend (record next { ioctx = record next.ioctx { offset = range_start next } } ∷ rest)

-- The contexts that have something to read, numbered from `non_null` on.
unfoldable pub non_empty : ℕ → List MboxParserCtx → List MboxParserCtx
non_empty non_null [] = []
non_empty non_null (ctx ∷ rest) =
    let skip = non_empty non_null rest in
    let kept = record ctx { id = non_null } ∷ non_empty (non_null + 1) rest in
    if leb ctx.ioctx.end_offset (range_start ctx) then skip else kept

-- `mboxSetAllOffsets`; the division by no thread traps.
unfoldable pub set_all_offsets :
    Allocator
    → (fuel : ℕ) (os : ℕ → ℕ → Os) (io_thread_count file_size : ℕ) → Outcome (List MboxParserCtx)
unfolding sought bookend non_empty
set_all_offsets m fuel os zero file_size = fault
set_all_offsets m fuel os (suc n) file_size = do
  contexts ← sought m fuel os 0 (suc n) (file_size / suc n) file_size
  ok (non_empty 0 (bookend contexts))

-- What follows a message in the loop of `mboxParserCtxGetNextMessageCallback`; `rest` is what the next
-- rounds give.
unfoldable pub after_message :
    Option MboxIoMsg
    → MboxParserCtx
    → Outcome (List MboxIoMsg × MboxParserCtx)
    → Outcome (List MboxIoMsg × MboxParserCtx)
after_message none ctx rest = ok ([], ctx)
after_message (some msg) ctx rest =
    let more = (do (msgs, last) ← rest; ok (msg ∷ msgs, last)) in
    if ctx.done then ok (msg ∷ [], ctx) else more

-- That loop: the messages handed to the second pool, in order, and the context behind them.
unfoldable pub read_messages :
    Allocator
    → (rounds fuel : ℕ) (os os' : ℕ → ℕ → Os) → MboxParserCtx
    → Outcome (List MboxIoMsg × MboxParserCtx)
unfolding get_next_message after_message
read_messages m zero fuel os os' ctx = out_of_fuel
read_messages m (suc rounds) fuel os os' ctx = do
  (msg, next) ← get_next_message m fuel (os rounds) (os' rounds) ctx
  after_message msg next (read_messages m rounds fuel os os' next)
