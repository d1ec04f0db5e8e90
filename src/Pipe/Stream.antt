-- ===== src/Pipe/Stream.antt =====
-- A pipe over many calls of pipewrite and piperead.
use tron_boss_os.Base.{
  ℕ, ◌-◌, ◌≡◌, refl, sym, subst, ◌≢◌, ap, ◌⊎◌, ◌∙◌, inl, inr, Bool, true, false, ◌||◌, not, List,
  [], ◌∷◌, ◌++◌, arith, ℤ, pos, length, take, drop, take-append-drop,
}
use mathlib.Core.List.{append-nil, append_assoc}
use tron_boss_os.Pipe.{
  Pipe, new_pipe, pipesize, WriteStep, write_returns, write_sleeps, pipewrite, ReadStep,
  read_returns, read_sleeps, piperead, pipeclose,
}
use tron_boss_os.Pipe.Queue.{IsPipe, written, take-nil, pipewrite-queue}
use tron_boss_os.Pipe.Delivery.{read_result, pipeclose-IsPipe, piperead-queue, new_pipe-IsPipe}

-- What a pipewrite of `n` bytes that does not fail leaves to be written: nothing when it returns `n`,
-- or the bytes that it goes on with when it sleeps.
abbrev pub Leaves : ℕ → WriteStep → List ℕ → Type 0
Leaves n r left = (r ≡ write_sleeps left) ⊎ ((r ≡ write_returns (pos n)) × (left ≡ []))

-- The bytes that a piperead has copied out
abbrev pub bytes_of : ReadStep → List ℕ
bytes_of (read_returns k bytes) = bytes
bytes_of read_sleeps = []

-- A new pipe in use: `sent` is the buffers of all calls of pipewrite so far, one call after the
-- other, `left` what is still to be written of the last one, and `out` what the calls of piperead
-- have copied out, one after the other. Reading and writing take turns in any order.
pub data Transfer (d : ℕ → ℕ) : (sent left out : List ℕ) → Pipe → Type 0 where
  start : Transfer d [] [] [] (new_pipe d)
  calls :
      {sent out : List ℕ} {p : Pipe} (addr : List ℕ)
      → Transfer d sent [] out p
      → Transfer d (sent ++ addr) addr out p
  writes :
      {sent left left' out : List ℕ} {p : Pipe} (n : ℕ) (killed : Bool)
      → Transfer d sent left out p
      → Leaves n (pipewrite (pos n) killed left p).0 left'
      → Transfer d sent left' out (pipewrite (pos n) killed left p).1
  reads :
      {sent left out : List ℕ} {p : Pipe} (n : ℕ) (killed : Bool)
      → Transfer d sent left out p
      → Transfer d sent left (out ++ bytes_of (piperead n killed p).0) (piperead n killed p).1
  closes :
      {sent left out : List ℕ} {p : Pipe} (writable : Bool)
      → Transfer d sent left out p
      → Transfer d sent left out (pipeclose writable p)

returns-sleeps : {n : ℤ} {left : List ℕ} → write_returns n ≢ write_sleeps left
returns-sleeps e = absurd (ground arith)

sleeps-left : {cs left : List ℕ} → write_sleeps cs ≡ write_sleeps left → left ≡ cs
sleeps-left e = ground arith

written-Leaves :
    (n : ℕ) (broken : Bool) (cs left : List ℕ)
    → Leaves n (written (pos n) broken cs) left
    → left ≡ cs
written-Leaves n broken [] left (inl e) = absurd (returns-sleeps e)
written-Leaves n broken [] left (inr (_, e)) = e
written-Leaves n true (c ∷ cs) left (inl e) = absurd (returns-sleeps e)
written-Leaves n true (c ∷ cs) left (inr (e, _)) = absurd (ground arith)
written-Leaves n false (c ∷ cs) left (inl e) = sleeps-left e
written-Leaves n false (c ∷ cs) left (inr (e, _)) = absurd (returns-sleeps (sym e))

-- A piperead takes its bytes off the front of the queue.
read_result-take :
    (q : List ℕ) (writeopen killed : Bool) (n : ℕ)
    → bytes_of (read_result q writeopen killed n) ≡ take n q
read_result-take [] true true n = sym (take-nil n)
read_result-take [] true false n = sym (take-nil n)
read_result-take [] false killed n = sym (take-nil n)
read_result-take (x ∷ q) writeopen killed n = refl

-- The first `n` bytes of the queue go over to those that have been read.
split_front :
    (n : ℕ) (out q left : List ℕ) → out ++ (q ++ left) ≡ (out ++ take n q) ++ (drop n q ++ left)
split_front n out q left =
    ap (λ (xs : List ℕ). out ++ (xs ++ left)) (sym (take-append-drop n q))
    ∙ ap (λ (xs : List ℕ). out ++ xs) (append_assoc (take n q) (drop n q) left)
    ∙ sym (append_assoc out (take n q) (drop n q ++ left))

-- Whatever the writers have handed over in calls of pipewrite one after the other, none of which has
-- failed, it is, in its order and without a byte lost or doubled: what the readers have got, then
-- what the pipe holds, then what the last call still has to write. The counts of the calls are any,
-- and reading, sleeping and closing come in between in any order.
pub Transfer-IsPipe :
    {d : ℕ → ℕ} {sent left out : List ℕ} {p : Pipe}
    → Transfer d sent left out p
    → (q : List ℕ) × IsPipe p q × (sent ≡ out ++ (q ++ left))
Transfer-IsPipe {d} start = ([], new_pipe-IsPipe d, refl)
Transfer-IsPipe (calls {out} addr t) =
    let (q, i, e) = Transfer-IsPipe t in (q, i, rw (e, append-nil q) (append_assoc out q addr))
Transfer-IsPipe (writes {left} {left'} {out} {p} n killed t l) =
    let (q, i, e) = Transfer-IsPipe t in
    let room = pipesize - length q in
    let (p', e', i', _) = pipewrite-queue (pos n) killed left p i in
    let rest : left' ≡ drop room left =
      written-Leaves n (not p.readopen || killed) (drop room left) left'
        (subst (λ (r : WriteStep × Pipe). Leaves n r.0 left') e' l) in
    (
      q ++ take room left,
      subst (λ (r : WriteStep × Pipe). IsPipe r.1 (q ++ take room left)) (sym e') i',
      rw (rest, append_assoc q (take room left) (drop room left), take-append-drop room left) e,
    )
Transfer-IsPipe (reads {left} {out} {p} n killed t) =
    let (q, i, e) = Transfer-IsPipe t in
    let (p', e', i', _) = piperead-queue n killed p i in
    (
      drop n q,
      subst (λ (r : ReadStep × Pipe). IsPipe r.1 (drop n q)) (sym e') i',
      rw (e', read_result-take q p.writeopen killed n) (e ∙ split_front n out q left),
    )
Transfer-IsPipe (closes {p} writable t) =
    let (q, i, e) = Transfer-IsPipe t in (q, pipeclose-IsPipe writable p i, e)
