-- ===== src/Index/RoundTrip.antt =====
-- What `mboxIdxSave` writes, `loadIndexes` and `indexesToList` read.
use libmbox.Base.{
  ℕ, suc, ◌+◌, ◌*◌, ◌^◌, ◌≤◌, ◌<◌, ◌≡◌, ◌≢◌, refl, sym, ap, subst, ◌∙◌, true, List, [], ◌∷◌, ◌++◌,
  arith, Option, none, some, eq→==, length, length-append, get_or, get_or-take,
}
use libmbox.Base.Outcome.{Outcome, ok}
use libmbox.Buf.{MboxBuf, alloc}
use libmbox.Buf.Memory.{Allocator, length-malloc, malloc}
use libmbox.Buf.Valid.{Grants, IsRoomy, text}
use libmbox.Index.{indexes_to_list, load_indexes, save}
use libmbox.Index.Decimal.{print_size}
use libmbox.Index.Load.{Holds, IsOffsets, index_text, indexes_loop-text}
use libmbox.Index.Save.{Writes, save-index_text}
use libmbox.Io.{Os, MboxIoCtx, IoErr, io_new, io_ok, io_read}
use libmbox.Io.Read.{ReadResult, io_read-Filled}

Holds-of_bytes :
    (block s : List ℕ) (i : ℕ)
    → i + length s ≤ length block
    → ((x : ℕ) → x < length s → get_or block (i + x) 0 ≡ get_or s x 0)
    → Holds block i s
Holds-of_bytes block [] i fits same = tt
Holds-of_bytes block (c ∷ cs) i fits same = (
  omega arith,
  ap (λ k. get_or block k 0) (omega arith) ∙ same 0 (omega arith),
  Holds-of_bytes block cs (i + 1) (omega arith)
      (λ x lt. ap (λ k. get_or block k 0) (omega arith) ∙ same (suc x) (omega arith)),
)

snoc_cons :
    (xs : List ℕ) (y : ℕ) (zs : List ℕ) → (c : ℕ) × (cs : List ℕ) × ((xs ++ y ∷ []) ++ zs ≡ c ∷ cs)
snoc_cons [] y zs = (y, zs, refl)
snoc_cons (x ∷ xs) y zs = (x, (xs ++ y ∷ []) ++ zs, refl)

index_text_cons :
    (x : ℕ × ℕ) (l : List (ℕ × ℕ)) → (c : ℕ) × (cs : List ℕ) × (index_text (x ∷ l) ≡ c ∷ cs)
unfolding index_text
index_text_cons (s, e) l = snoc_cons _ _ _

length-index_text : (l : List (ℕ × ℕ)) → length l ≤ length (index_text l)
unfolding index_text
length-index_text [] = omega arith
length-index_text ((s, e) ∷ l) =
    let first =
      length-append (print_size s ++ b' ' ∷ []) ((print_size e ++ b'\n' ∷ []) ++ index_text l) in
    let second = length-append (print_size e ++ b'\n' ∷ []) (index_text l) in
    omega (arith, length-append (print_size e) (b'\n' ∷ []), length-index_text l)

-- A buffer that holds the text of an index file.
indexes_to_list-text :
    (m : Allocator) (b : MboxBuf) (l : List (ℕ × ℕ))
    → IsOffsets l
    → IsRoomy b
    → text b ≡ index_text l
    → b.len ≡ length (index_text l)
    → b.offset ≡ 0
    → indexes_to_list m b ≡ ok l
unfolding indexes_to_list
indexes_to_list-text m b l small roomy same size start =
    let arrays = length-malloc m 26 in
    let inside = roomy.valid.held in
    rw start (
      indexes_loop-text (b.len + 1) b.block b.len 0 l (malloc m 26) (malloc m 26) small arrays
        arrays
        (Holds-of_bytes b.block (index_text l) 0 (omega arith) (λ x lt.
          ap (λ k. get_or b.block k 0) (omega arith)
          ∙ sym (get_or-take b.len x b.block 0 (omega arith))
          ∙ ap (λ t. get_or t x 0) same))
        (omega arith) (omega (arith, length-index_text l)))

load_after :
    (m : Allocator) (os : Os) (ctx : MboxIoCtx) (n : ℕ) (r : Option ℕ) (l : List (ℕ × ℕ))
    → io_read m os (io_new m n) n 0 0 ≡ ok (r, ctx)
    → r ≡ some n
    → indexes_to_list m ctx.buf ≡ ok l
    → load_indexes m os (some n) ≡ ok (some l)
unfolding load_indexes
load_after m os ctx n r l run whole list = rw (run, whole, eq→== n n refl, list) refl

length_of : Option (List ℕ) → ℕ
length_of none = 0
length_of (some d) = length d

io_new-IsRoomy : (m : Allocator) (n : ℕ) → IsRoomy (io_new m n).buf
unfolding io_new alloc
io_new-IsRoomy m n =
    let size = length-malloc m 300010 in
    record {
      valid = record {
        room = omega (arith, size);
        fits = omega arith;
        held = omega (arith, size);
        small = omega arith;
      };
      spare = omega arith;
    }

load_read :
    (m : Allocator) (os : Os) (l : List (ℕ × ℕ)) (c : ℕ) (cs : List ℕ)
    → Grants m
    → IsOffsets l
    → index_text l ≡ c ∷ cs
    → length (index_text l) < 2 ^ 32
    → os.pread (length (index_text l)) 0 ≡ some (index_text l)
    → load_indexes m os (some (length (index_text l))) ≡ ok (some l)
unfolding io_new alloc length_of
load_read m os l c cs g small e fits here =
    let d = index_text l in
    let n = length d in
    let (r, b, err, run, result) =
      io_read-Filled m os (io_new m n) n 0 g (io_new-IsRoomy m n) (omega arith) fits
        (λ t p. omega (arith, ap length_of (sym p ∙ here))) in
    let known : ReadResult (io_new m n).buf n (some (c ∷ cs)) r err b =
      subst (λ o. ReadResult (io_new m n).buf n o r err b) (here ∙ ap some e) result in
    let (returned, _, filled) = known in
    load_after m os (record (io_new m n) { err = err; buf = b }) n r l run
      (returned ∙ ap (λ t. some (length t)) (sym e))
      (indexes_to_list-text m b l small filled.roomy (filled.text_lem ∙ sym e)
        (omega (arith, filled.len_lem, ap length e)) filled.offset_lem)

file_of : Outcome (IoErr × List ℕ) → List ℕ
file_of (ok (_, file)) = file
file_of _ = []

load_indexes-index_text :
    (m : Allocator) (os : Os) (l : List (ℕ × ℕ))
    → Grants m
    → l ≢ []
    → IsOffsets l
    → length (index_text l) < 2 ^ 32
    → os.pread (length (index_text l)) 0 ≡ some (index_text l)
    → load_indexes m os (some (length (index_text l))) ≡ ok (some l)
load_indexes-index_text m os [] g ne small size here = absurd (ne refl)
load_indexes-index_text m os (x ∷ l) g ne small size here =
    let (c, cs, e) = index_text_cons x l in load_read m os (x ∷ l) c cs g small e size here

-- With memory to be had: what `mboxIdxSave` has written with whole writes, for a list that is
-- not empty, whose sort is not empty, keeps each offset below 2 ^ 63 and is so short that 256
-- bytes for each message stay below 2 ^ 63, and into a file of less than 2 ^ 32 bytes,
-- `loadIndexes` and `indexesToList` read back where `pread` gives the whole file: the offsets
-- of the messages, in the order of the sort, with no token leaving its array of 26 bytes.
pub load_indexes-save :
    (m : Allocator) (os : ℕ → Os) (os' : Os) (sort : List (ℕ × ℕ) → List (ℕ × ℕ)) (l : List (ℕ × ℕ))
    (old file : List ℕ)
    → Grants m
    → ((i : ℕ) → Writes (os i))
    → l ≢ []
    → sort l ≢ []
    → IsOffsets (sort l)
    → 256 * length (sort l) + 400000 < 2 ^ 63
    → save m os true sort l old ≡ ok (io_ok, file)
    → length file < 2 ^ 32
    → os'.pread (length file) 0 ≡ some file
    → load_indexes m os' (some (length file)) ≡ ok (some (sort l))
unfolding file_of
load_indexes-save m os os' sort l old file g whole ne ne' small few saved fits here =
    let same : file ≡ index_text (sort l) =
      ap file_of (sym saved ∙ save-index_text m os sort l old g whole ne few) in
    subst (λ t. load_indexes m os' (some (length t)) ≡ ok (some (sort l))) (sym same)
      (load_indexes-index_text m os' (sort l) g ne' small (subst (λ t. length t < 2 ^ 32) same fits)
        (subst (λ t. os'.pread (length t) 0 ≡ some t) same here))
