-- ===== src/Mbox/Tests.antt =====
-- Two readers of a file of a hundred bytes whose reads fail: each keeps the start that it was given.
use Prim.Native.Nat.{min}
use libmbox.Base.{
  ℕ, zero, suc, ◌-◌, ◌*◌, ◌≡◌, ◌≢◌, refl, true, false, List, [], ◌∷◌, none, some, arith, set,
  length, take, drop,
}
use libmbox.Base.Outcome.{ok}
use libmbox.Buf.{set_len, set_offset, alloc, extend_buffer_if_needed}
use libmbox.Buf.Memory.{Allocator, malloc, store-ok, length-malloc}
use libmbox.Io.{Os, io_ok, io_read_err, io_new, io_read, io_read_size}
use libmbox.Io.Window.{Serves, IsClean}
use libmbox.Mbox.{set_all_offsets, sought, init_ctx, read_messages}
use libmbox.Mbox.Pieces.{CutsRange, CutsFile, read_messages-CutsRange}
use libmbox.Mbox.Ranges.{Tiles, set_all_offsets-Tiles}
use libmbox.Mbox.Readers.{All, set_all_offsets-CutsRange}
use libmbox.Mbox.Single.{StartsWithFrom, one_reader-CutsFile}
use libmbox.Parser.{MboxParserCtx, parser_ctx_new, seek_start, seek_start_loop, get_next_message}
use libmbox.Parser.Reader.{IsFrom}
use libmbox.Parser.Reader.Next.{get_next_message-NextMessage}
use libmbox.Parser.Reader.Piece.{IsReady, NextMessage}

abbrev heap : Allocator
heap = record { junk = λ i. 165; grants = λ n. true }

abbrev broken : ℕ → ℕ → Os
broken i j = record { pread = λ size offset. none; pwrite = λ s offset. none; fsync = true }

abbrev reader : ℕ → MboxParserCtx
reader i = record {
  id = i;
  done = false;
  parsed = 0;
  ioctx = record {
    err = io_read_err;
    offset = i * 50;
    start_offset = i * 50;
    end_offset = 0;
    file_offset = i * 50;
    file_size = 100;
    buf = record { block = set (malloc heap 300010) 0 0; offset = 0; len = 0; capacity = 300010 };
  };
}

sought_run : sought heap 1 broken 0 2 50 100 ≡ ok (reader 0 ∷ reader 1 ∷ [])
unfolding sought init_ctx parser_ctx_new seek_start seek_start_loop io_new io_read alloc
    extend_buffer_if_needed set_len set_offset
sought_run = rw (store-ok (malloc heap 300010) 0 0 (omega (arith, length-malloc heap 300010))) refl

set_all_offsets-Tiles_example :
    (cs : List MboxParserCtx) × (set_all_offsets heap 1 broken 2 100 ≡ ok cs) × Tiles 0 0 100 cs
set_all_offsets-Tiles_example =
    set_all_offsets-Tiles heap 1 broken 1 100 (reader 0) (reader 1 ∷ []) sought_run
      (omega arith, (omega arith, refl))

-- A file of two messages, on a system whose reads give all that is there.
abbrev two_messages : List ℕ
two_messages =
    b'F' ∷ b'r' ∷ b'o' ∷ b'm' ∷ b' ' ∷ b'a' ∷ b'\n' ∷ b'\n' ∷ b'b' ∷ b'\n' ∷ b'F' ∷ b'r' ∷ b'o'
    ∷ b'm' ∷ b' ' ∷ b'c' ∷ b'\n' ∷ b'\n' ∷ b'd' ∷ b'\n' ∷ []

abbrev disk : Os
disk = record {
  pread = λ size offset.
      some (take (min size (length two_messages - offset)) (drop offset two_messages));
  pwrite = λ s offset. none;
  fsync = true;
}

disk-Serves : Serves two_messages disk
disk-Serves offset =
    (min io_read_size (length two_messages - offset), refl, omega arith, omega arith, ground arith)

AllSolid : List ℕ → Type 0
AllSolid [] = Unit
AllSolid (c ∷ cs) = (c ≢ 0) × AllSolid cs

AllSolid-IsClean : (file : List ℕ) → AllSolid file → IsClean file
unfolding AllSolid
AllSolid-IsClean [] all i lt = absurd (omega arith)
AllSolid-IsClean (c ∷ cs) (solid, all) zero lt = solid
AllSolid-IsClean (c ∷ cs) (solid, all) (suc i) lt = AllSolid-IsClean cs all i (omega arith)

two_messages-IsClean : IsClean two_messages
unfolding AllSolid
two_messages-IsClean = AllSolid-IsClean two_messages (omega arith)

starts_lem : StartsWithFrom two_messages
starts_lem zero lt = refl
starts_lem (suc zero) lt = refl
starts_lem (suc (suc zero)) lt = refl
starts_lem (suc (suc (suc zero))) lt = refl
starts_lem (suc (suc (suc (suc zero)))) lt = refl
starts_lem (suc (suc (suc (suc (suc k))))) lt = absurd (omega arith)

-- A reader in front of the file.
abbrev fresh_reader : MboxParserCtx
fresh_reader = record {
  id = 0;
  done = false;
  parsed = 0;
  ioctx = record {
    err = io_ok;
    offset = 0;
    start_offset = 0;
    end_offset = 20;
    file_offset = 0;
    file_size = 20;
    buf = record { block = 0 ∷ 0 ∷ []; offset = 0; len = 0; capacity = 2 };
  };
}

fresh-IsReady : IsReady two_messages 0 fresh_reader
fresh-IsReady = record {
  stands = record {
    window = record {
      same = λ i lt. absurd (omega arith);
      nul = refl;
      place = refl;
      inside = omega arith;
      roomy = record {
        valid = record {
          room = omega arith;
          fits = omega arith;
          held = omega arith;
          small = omega arith;
        };
        spare = omega arith;
      };
      cap = omega arith;
    };
    within = omega arith;
    live = refl;
  };
  place = refl;
}

get_next_message-NextMessage_example :
    NextMessage two_messages fresh_reader
      (get_next_message heap 41 (λ i. disk) (λ i. disk) fresh_reader)
get_next_message-NextMessage_example =
    get_next_message-NextMessage heap (λ n. refl) two_messages two_messages-IsClean (omega arith) 41
      (λ i. disk) (λ i. disk) 0 fresh_reader (λ i. disk-Serves) (λ i. disk-Serves) fresh-IsReady
      (omega arith)

read_messages-CutsRange_example :
    CutsRange two_messages fresh_reader
      (read_messages heap 21 41 (λ i j. disk) (λ i j. disk) fresh_reader)
read_messages-CutsRange_example =
    read_messages-CutsRange heap 21 41 (λ i j. disk) (λ i j. disk) two_messages 0 fresh_reader
      (λ n. refl) two_messages-IsClean (omega arith) (λ i j. disk-Serves) (λ i j. disk-Serves)
      fresh-IsReady refl (omega arith) (omega arith)

one_reader-CutsFile_example :
    (ctx : MboxParserCtx) × (set_all_offsets heap 1 (λ i j. disk) 1 (length two_messages)
      ≡ ok (ctx ∷ []))
    × (ctx.ioctx.offset ≡ 0)
    × (ctx.ioctx.end_offset ≡ length two_messages)
    × CutsFile two_messages (read_messages heap 21 41 (λ i j. disk) (λ i j. disk) ctx)
one_reader-CutsFile_example =
    one_reader-CutsFile heap (λ n. refl) two_messages two_messages-IsClean (omega arith) starts_lem
      (omega arith) 21 41 0 (λ i j. disk) (λ i j. disk) (λ i j. disk) refl (λ i j. disk-Serves)
      (λ i j. disk-Serves) (omega arith) (omega arith)

-- A disk that gives all that is there, and where the second message begins.
abbrev full_disk : Os
full_disk = record {
  pread = λ size offset. some (take size (drop offset two_messages));
  pwrite = λ s offset. none;
  fsync = true;
}

second-IsFrom : IsFrom two_messages 9
second-IsFrom zero lt = refl
second-IsFrom (suc zero) lt = refl
second-IsFrom (suc (suc zero)) lt = refl
second-IsFrom (suc (suc (suc zero))) lt = refl
second-IsFrom (suc (suc (suc (suc zero)))) lt = refl
second-IsFrom (suc (suc (suc (suc (suc zero))))) lt = refl
second-IsFrom (suc (suc (suc (suc (suc (suc k)))))) lt = absurd (omega arith)

set_all_offsets-CutsRange_example :
    (cs : List MboxParserCtx) × (set_all_offsets heap 1 (λ i j. full_disk) 2 (length two_messages)
      ≡ ok cs)
    × All
        (λ c. CutsRange two_messages c (read_messages heap 21 41 (λ i j. disk) (λ i j. disk) c))
        cs
set_all_offsets-CutsRange_example =
    set_all_offsets-CutsRange heap (λ n. refl) two_messages starts_lem (omega arith) (omega arith)
      (λ i j. full_disk) (λ i j place. refl) 21 41 0 1 (λ i j. disk) (λ i j. disk)
      two_messages-IsClean (λ i j. disk-Serves) (λ i j. disk-Serves) (omega arith) (omega arith)
      (λ k ge lt. (omega arith, (9, omega arith, omega arith, omega arith, second-IsFrom)))
