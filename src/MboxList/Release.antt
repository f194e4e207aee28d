-- ===== src/MboxList/Release.antt =====
-- `mboxListRelease` takes the list down from the front.
use libmbox.Base.{
  ℕ, suc, ◌+◌, ◌≡◌, refl, ◌&&◌, not, none, List, [], ◌∷◌, ◌++◌, arith, ◌==◌, if◌then◌else◌, length,
  ne→==, append_assoc, append-nil,
}
use libmbox.MboxList.{MboxList, release_loop, release}
use libmbox.MboxList.Heap.{Ptr, null, Heap}
use libmbox.MboxList.Heap.Access.{Runs}
use libmbox.MboxList.Heap.Chain.{Cells, has}
use libmbox.MboxList.Rep.{IsList, contents}
use libmbox.MboxList.Remove.{remove_head-IsList}

-- The data that the callback is to see: those that are not `NULL`.
unfoldable pub non_null : List ℕ → List ℕ
non_null [] = []
non_null (v ∷ vs) = if not (v == null) then v ∷ non_null vs else non_null vs

-- `g` is `h` with exactly the nodes `xs` freed.
abbrev pub Without : Cells → Heap → Heap → Type 0
Without xs h g = (a : Ptr) → g a ≡ (if has a xs then none else h a)

release_loop-Without :
    (xs : Cells) (h : Heap) (l : MboxList) (freed : List ℕ)
    → IsList h l xs
    → Runs (release_loop (suc (length xs)) l freed h) λ out g.
      (out ≡ freed ++ (if l.freedata then non_null (contents xs) else [])) × Without xs h g
unfolding release_loop non_null
release_loop-Without [] h l freed is =
    (freed, h, rw is.count, (ground (arith, append-nil freed), λ a. refl))
release_loop-Without ((p, v) ∷ xs) h l freed is =
    let ((val, m), g, run, (got, left, gone, same, (_, callback))) =
      remove_head-IsList h l p v xs is in
    let freed' : List ℕ = if not (val == null) && l.freedata then freed ++ val ∷ [] else freed in
    let (out, k, rest, (trace, without)) = release_loop-Without xs g m freed' left in
    (
      out,
      k,
      rw (ne→== l.len 0 (omega (arith, is.count)), run) rest,
      (
        ground (
          arith,
          append_assoc freed (v ∷ []) (non_null (contents xs)),
          append-nil freed,
          append-nil (freed ++ v ∷ []),
        ),
        λ a. ground (arith, without a, same a, is.ring.1.2),
      ),
    )

-- On any list, `mboxListRelease` returns, frees exactly the nodes of the list, each once, and
-- hands the data that are not `NULL` to the callback in order, if there is one.
pub release-Without :
    (h : Heap) (l : MboxList) (xs : Cells)
    → IsList h l xs
    → Runs
        (release l h)
        λ out g. (out ≡ (if l.freedata then non_null (contents xs) else [])) × Without xs h g
unfolding release
release-Without h l xs is =
    let e : l.len + 1 ≡ suc (length xs) = omega (arith, is.count) in
    rw e (release_loop-Without xs h l [] is)
