-- ===== src/Content/Write.antt =====
-- writei writes block by block, and that is one byte after the other.
use tron_boss_os.Base.{
  ℕ, zero, suc, ◌+◌, ◌*◌, ◌/◌, ◌%◌, ◌≤◌, ◌<◌, ◌≡◌, ◌≢◌, refl, sym, ap, ◌∙◌, fun_ext, inl, inr, true,
  false, Bool-cases, some, List, [], ◌∷◌, ◌++◌, arith, ◌==◌, ltb, leb, ℤ, pos, eq-cases, ne→==,
  update, update_self, update_other, length, length-take, length-append, take, drop,
  take-append-drop, Option,
}
use tron_boss_os.Kernel.{add_uint}
use tron_boss_os.Content.{
  bsize, maxfile, t_dev, Content, copy_in, part, write_blocks, grow, wrote, writei,
}

-- The bytes from `off` on become `bs`, one after the other.
abbrev pub put : (off : ℕ) (bs : List ℕ) → (ℕ → ℕ → ℕ) → ℕ → ℕ → ℕ
put off [] m = m
put off (b ∷ bs) m =
    put (off + 1) bs (update m (off / bsize) (update (m (off / bsize)) (off % bsize) b))

-- The file with `bs` from `off` on, longer if it has to be
unfoldable pub written_at : (off : ℕ) (bs : List ℕ) → Content → Content
written_at off bs s = grow (off + length bs) (record s { blocks = put off bs s.blocks })

update-update :
    {A : Type 0} (m : ℕ → A) (k : ℕ) (x y : A) → update (update m k x) k y ≡ update m k y
update-update m k x y = fun_ext (λ j. elim (eq-cases j k) [
  | inl (e, _) ↦ rw (e, update_self (update m k x) k y, update_self m k y) refl
  | inr (ne, _) ↦
      rw (update_other (update m k x) k y j ne, update_other m k x j ne, update_other m k y j ne)
        refl
])

-- One block, of which the bytes do not run over the end
copy_in-put :
    (off c : ℕ) (cs : List ℕ) (m : ℕ → ℕ → ℕ)
    → off % bsize + length (c ∷ cs) ≤ bsize
    → update m (off / bsize) (copy_in (off % bsize) (c ∷ cs) (m (off / bsize))) ≡ put off (c ∷ cs) m
copy_in-put off c [] m le = refl
copy_in-put off c (d ∷ cs) m le =
    let k = off / bsize in
    let i = off % bsize in
    let y = update (m k) i c in
    let m' = update m k y in
    let at : (off + 1) / bsize ≡ k = omega (arith, le) in
    let next : (off + 1) % bsize ≡ i + 1 = omega (arith, le) in
    sym (update-update m k y (copy_in (i + 1) (d ∷ cs) y))
    ∙ ap (λ (b : ℕ → ℕ). update m' k (copy_in (i + 1) (d ∷ cs) b)) (sym (update_self m k y))
    ∙ ap (λ (j : ℕ). update m' k (copy_in j (d ∷ cs) (m' k))) (sym next)
    ∙ ap (λ (j : ℕ). update m' j (copy_in ((off + 1) % bsize) (d ∷ cs) (m' j))) (sym at)
    ∙ copy_in-put (off + 1) d cs m' (omega (arith, le))

block-put :
    (off : ℕ) (xs : List ℕ) (m : ℕ → ℕ → ℕ)
    → 0 < length xs
    → off % bsize + length xs ≤ bsize
    → update m (off / bsize) (copy_in (off % bsize) xs (m (off / bsize))) ≡ put off xs m
block-put off [] m lt le = absurd (omega arith)
block-put off (c ∷ cs) m lt le = copy_in-put off c cs m le

put-append :
    (off : ℕ) (xs ys : List ℕ) (m : ℕ → ℕ → ℕ)
    → put off (xs ++ ys) m ≡ put (off + length xs) ys (put off xs m)
put-append off [] ys m = ap (λ (k : ℕ). put k ys m) (omega arith)
put-append off (x ∷ xs) ys m =
    let m' = update m (off / bsize) (update (m (off / bsize)) (off % bsize) x) in
    put-append (off + 1) xs ys m' ∙ ap (λ (k : ℕ). put k ys (put (off + 1) xs m')) (omega arith)

put-parts :
    (off n : ℕ) (xs : List ℕ) (m : ℕ → ℕ → ℕ)
    → length (take n xs) ≡ n
    → put (off + n) (drop n xs) (put off (take n xs) m) ≡ put off xs m
put-parts off n xs m l =
    ap (λ (k : ℕ). put (off + k) (drop n xs) (put off (take n xs) m)) (sym l)
    ∙ sym (put-append off (take n xs) (drop n xs) m)
    ∙ ap (λ (ys : List ℕ). put off ys m) (take-append-drop n xs)

part_bounds :
    (n off : ℕ) → 0 < n → (0 < part n off) × (part n off ≤ n) × (off % bsize + part n off ≤ bsize)
part_bounds n off lt = (ground arith, ground arith, ground arith)

pub length-take-drop : (n : ℕ) (xs : List ℕ) → length xs ≡ length (take n xs) + length (drop n xs)
length-take-drop n xs =
    sym (ap length (take-append-drop n xs)) ∙ length-append (take n xs) (drop n xs)

-- The loop comes to its end, with every byte in its place; `suc` of their number is enough fuel.
write_blocks_lem :
    (fuel off : ℕ) (src : List ℕ) (m : ℕ → ℕ → ℕ)
    → length src < fuel
    → off + length src ≤ maxfile * bsize
    → write_blocks fuel off src m ≡ some (off + length src, put off src m)
unfolding write_blocks
write_blocks_lem zero off src m lt le = absurd (omega arith)
write_blocks_lem (suc fuel) off [] m lt le = ap (λ (k : ℕ). some (k, m)) (omega arith)
write_blocks_lem (suc fuel) off (c ∷ cs) m lt le =
    let n = part (length (c ∷ cs)) off in
    let xs = take n (c ∷ cs) in
    let ys = drop n (c ∷ cs) in
    let (some_, all, inside) = part_bounds (length (c ∷ cs)) off (omega arith) in
    let l : length xs ≡ n = length-take n (c ∷ cs) all in
    let sum = length-take-drop n (c ∷ cs) in
    let low : leb maxfile (off / bsize) ≡ false = ground (arith, le) in
    let a : add_uint off n ≡ off + n = omega (arith, le, all) in
    let block = block-put off xs m (omega (arith, some_, l)) (omega (arith, inside, l)) in
    let out = λ (k : ℕ) (b : ℕ → ℕ → ℕ). write_blocks fuel k ys b in
    rw low (
      ap (λ (k : ℕ). out k (update m (off / bsize) (copy_in (off % bsize) xs (m (off / bsize))))) a
      ∙ ap (out (off + n)) block
      ∙ write_blocks_lem fuel (off + n) ys (put off xs m) (omega (arith, sum, l, some_))
          (omega (arith, sum, l))
      ∙ ap (λ (k : ℕ). some (k, put (off + n) ys (put off xs m))) (omega (arith, sum, l))
      ∙ ap (λ (b : ℕ → ℕ → ℕ). some (off + length (c ∷ cs), b)) (put-parts off n (c ∷ cs) m l))

grow-grow :
    (a b : ℕ) (s : Content) (m : ℕ → ℕ → ℕ)
    → a ≤ b
    → grow b (record (grow a s) { blocks = m }) ≡ grow b (record s { blocks = m })
grow-grow a b s m le = elim (Bool-cases (ltb s.inode.size a)) [
  | inr n ↦ rw n refl
  | inl y ↦
      let more : ltb s.inode.size b ≡ true = ground (arith, y, le) in
      elim (Bool-cases (ltb a b)) [
        | inl z ↦ rw (y, more, z) refl
        | inr z ↦ let same : a ≡ b = ground (arith, z, le) in rw (y, more, z, same) refl
      ]
]

grow_lem :
    (off : ℕ) (s : Content)
    → ((grow off s).blocks ≡ s.blocks)
      × ((grow off s).inode.type ≡ s.inode.type)
      × (off ≤ (grow off s).inode.size)
grow_lem off s = elim (Bool-cases (ltb s.inode.size off)) [
  | inl y ↦ rw y (refl, refl, omega arith)
  | inr n ↦ rw n (refl, refl, ground (arith, n))
]

pub written_at_lem :
    (off : ℕ) (bs : List ℕ) (s : Content)
    → ((written_at off bs s).blocks ≡ put off bs s.blocks)
      × ((written_at off bs s).inode.type ≡ s.inode.type)
      × (off + length bs ≤ (written_at off bs s).inode.size)
unfolding written_at
written_at_lem off bs s = grow_lem (off + length bs) (record s { blocks = put off bs s.blocks })

pub written_at_nothing : (off : ℕ) (s : Content) → off ≤ s.inode.size → written_at off [] s ≡ s
unfolding written_at
written_at_nothing off s le =
    let not_more : ltb s.inode.size (off + 0) ≡ false = ground (arith, le) in rw not_more refl

-- Two writes, one behind the other, are one.
pub written_at-parts :
    (off n : ℕ) (xs : List ℕ) (s : Content)
    → length (take n xs) ≡ n
    → written_at (off + n) (drop n xs) (written_at off (take n xs) s) ≡ written_at off xs s
unfolding written_at
written_at-parts off n xs s l =
    let ys = drop n xs in
    let first = record s { blocks = put off (take n xs) s.blocks } in
    let a = off + length (take n xs) in
    let b = off + n + length ys in
    let sum = length-take-drop n xs in
    ap (λ (m : ℕ → ℕ → ℕ). grow b (record (grow a first) { blocks = put (off + n) ys m }))
      (grow_lem a first).0
    ∙ grow-grow a b first (put (off + n) ys (put off (take n xs) s.blocks)) (omega (arith, l))
    ∙ ap (λ (m : ℕ → ℕ → ℕ). grow b (record s { blocks = m })) (put-parts off n xs s.blocks l)
    ∙ ap (λ (k : ℕ). grow k (record s { blocks = put off xs s.blocks })) (omega (arith, sum, l))

wrote_lem :
    (off : ℕ) (src : List ℕ) (s : Content)
    → off ≤ s.inode.size
    → wrote (length src) s (some (off + length src, put off src s.blocks))
      ≡ some (pos (length src), written_at off src s)
unfolding written_at
wrote_lem off src s le = elim (Bool-cases (ltb s.inode.size (off + length src))) [
  | inl y ↦ let more : ltb 0 (length src) ≡ true = ground (arith, y, le) in rw (y, more) refl
  | inr n ↦ elim (Bool-cases (ltb 0 (length src))) [
    | inl more ↦ rw (n, more) refl
    | inr none_ ↦ rw (n, none_) refl
  ]
]

-- `writei` to an inode that is no device, at an offset in the file or at its end, of bytes that end
-- within the largest file: it returns their count, every byte stands where it belongs, and the file
-- has grown if they go beyond its end.
pub writei_writes :
    (devsw_write : ℕ → Option (List ℕ → ℤ)) (src : List ℕ) (off : ℕ) (s : Content)
    → s.inode.type ≢ t_dev
    → off ≤ s.inode.size
    → off + length src ≤ maxfile * bsize
    → writei devsw_write src off s ≡ some (pos (length src), written_at off src s)
unfolding writei
writei_writes devsw_write src off s ne le fits =
    let n = length src in
    let a : add_uint off n ≡ off + n = omega (arith, fits) in
    let file : (s.inode.type == t_dev) ≡ false = ne→== s.inode.type t_dev ne in
    let inside : ltb s.inode.size off ≡ false = ground (arith, le) in
    let straight : ltb (off + n) off ≡ false = ground arith in
    let small : ltb (maxfile * bsize) (off + n) ≡ false = ground (arith, fits) in
    rw (file, a, inside, straight, small)
      (ap (wrote n s) (write_blocks_lem (suc n) off src s.blocks (omega arith) fits)
        ∙ wrote_lem off src s le)
