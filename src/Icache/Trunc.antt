-- ===== src/Icache/Trunc.antt =====
-- itrunc frees each block of the inode, in order, and clears its addresses.
use tron_boss_os.Base.{
  ℕ, zero, suc, ◌-◌, ◌≤◌, ◌<◌, ◌≡◌, ◌≢◌, refl, sym, ap, ◌∙◌, inl, inr, List, [], ◌∷◌, ◌++◌, arith,
  ◌==◌, if◌then◌else◌, eq-cases, update, update_self, update_other,
}
use mathlib.Core.List.{append-nil, append_assoc}
use tron_boss_os.Icache.{
  Dinode, Inode, Device, ndirect, nindirect, trunc_direct, trunc_indirect, trunc_block, itrunc,
  iupdate, iput_free,
}

-- The values of `f` at `k - n`, ..., `k - 1` that are not 0
unfoldable pub used : (k n : ℕ) → (ℕ → ℕ) → List ℕ
used k zero f = []
used k (suc n) f =
    let rest = used k n f in if f (k - suc n) == 0 then rest else f (k - suc n) ∷ rest

-- The blocks of an inode: the direct ones, those that the indirect block lists, the indirect block
unfoldable pub indirect_blocks : (words : ℕ → ℕ → ℕ) → ℕ → List ℕ
indirect_blocks words b = if b == 0 then [] else used nindirect nindirect (words b) ++ b ∷ []

unfoldable pub blocks_of : Dinode → (words : ℕ → ℕ → ℕ) → List ℕ
blocks_of i words = used ndirect ndirect i.addrs ++ indirect_blocks words (i.addrs ndirect)

used-same : (k n : ℕ) (f g : ℕ → ℕ) → ((i : ℕ) → k - n ≤ i → g i ≡ f i) → used k n g ≡ used k n f
unfolding used
used-same k zero f g same = refl
used-same k (suc n) f g same =
    rw (same (k - suc n) (omega arith), used-same k n f g (λ i le. same i (omega arith))) refl

trunc_direct-freed :
    (n : ℕ) (f : ℕ → ℕ) (freed : List ℕ)
    → n ≤ ndirect
    → (trunc_direct n f freed).1 ≡ freed ++ used ndirect n f
unfolding trunc_direct used
trunc_direct-freed zero f freed le = sym (append-nil freed)
trunc_direct-freed (suc n) f freed le =
    let i = ndirect - suc n in
    elim (eq-cases (f i) 0) [
      | inl (_, b) ↦ rw (trunc_direct, b) (trunc_direct-freed n f freed (omega arith))
      | inr (_, b) ↦
          let rest = trunc_direct-freed n (update f i 0) (freed ++ f i ∷ []) (omega arith) in
          let same =
            used-same ndirect n f (update f i 0) (λ j lo. update_other f i 0 j (omega arith)) in
          rw (trunc_direct, b)
            (rest
              ∙ ap (λ (xs : List ℕ). (freed ++ f i ∷ []) ++ xs) same
              ∙ append_assoc freed (f i ∷ []) (used ndirect n f))
    ]

-- The direct addresses are cleared, the others stay.
trunc_direct-addrs :
    (n : ℕ) (f : ℕ → ℕ) (freed : List ℕ)
    → n ≤ ndirect
    → ((i : ℕ) → ndirect - n ≤ i → i < ndirect → (trunc_direct n f freed).0 i ≡ 0)
      × ((i : ℕ) → ndirect ≤ i → (trunc_direct n f freed).0 i ≡ f i)
      × ((i : ℕ) → i < ndirect - n → (trunc_direct n f freed).0 i ≡ f i)
unfolding trunc_direct
trunc_direct-addrs zero f freed le = (λ i lo hi. absurd (omega arith), λ i hi. refl, λ i lo. refl)
trunc_direct-addrs (suc n) f freed le =
    let k = ndirect - suc n in
    elim (eq-cases (f k) 0) [
      | inl (z, b) ↦
          let (cut, above, below) = trunc_direct-addrs n f freed (omega arith) in
          rw (trunc_direct, b)
            (
              λ i lo hi. elim (eq-cases i k) [
                | inl (e, _) ↦ below i (omega arith) ∙ ap f e ∙ z
                | inr (ne, _) ↦ cut i (omega arith) hi
              ],
              above,
              λ i lo. below i (omega arith),
            )
      | inr (_, b) ↦
          let g = update f k 0 in
          let (cut, above, below) = trunc_direct-addrs n g (freed ++ f k ∷ []) (omega arith) in
          rw (trunc_direct, b)
            (
              λ i lo hi. elim (eq-cases i k) [
                | inl (e, _) ↦ below i (omega arith) ∙ ap g e ∙ update_self f k 0
                | inr (ne, _) ↦ cut i (omega arith) hi
              ],
              λ i hi. above i hi ∙ update_other f k 0 i (omega arith),
              λ i lo. below i (omega arith) ∙ update_other f k 0 i (omega arith),
            )
    ]

trunc_indirect-freed :
    (n : ℕ) (a : ℕ → ℕ) (freed : List ℕ) → trunc_indirect n a freed ≡ freed ++ used nindirect n a
unfolding trunc_indirect used
trunc_indirect-freed zero a freed = sym (append-nil freed)
trunc_indirect-freed (suc n) a freed =
    let j = nindirect - suc n in
    elim (eq-cases (a j) 0) [
      | inl (_, b) ↦ rw b (trunc_indirect-freed n a freed)
      | inr (_, b) ↦ rw b (
          trunc_indirect-freed n a (freed ++ a j ∷ [])
          ∙ append_assoc freed (a j ∷ []) (used nindirect n a))
    ]

trunc_block-freed :
    (words : ℕ → ℕ → ℕ) (f : ℕ → ℕ) (b : ℕ) (freed direct : List ℕ)
    → f ndirect ≡ b
    → (trunc_block words (f, freed ++ direct)).1 ≡ freed ++ (direct ++ indirect_blocks words b)
unfolding indirect_blocks
trunc_block-freed words f b freed direct at = elim (eq-cases b 0) [
  | inl (_, n) ↦ rw (at, n) (sym (ap (λ (xs : List ℕ). freed ++ xs) (append-nil direct)))
  | inr (_, n) ↦
      let listed = used nindirect nindirect (words b) in
      rw (at, n, trunc_indirect-freed nindirect (words b) (freed ++ direct))
        (append_assoc (freed ++ direct) listed (b ∷ [])
          ∙ append_assoc freed direct (listed ++ b ∷ []))
]

trunc_block-addrs :
    (words : ℕ → ℕ → ℕ) (f : ℕ → ℕ) (freed : List ℕ)
    → ((i : ℕ) → i < ndirect → f i ≡ 0)
    → (k : ℕ) → k ≤ ndirect
    → (trunc_block words (f, freed)).0 k ≡ 0
trunc_block-addrs words f freed cut k le = elim (eq-cases (f ndirect) 0) [
  | inl (z, n) ↦
      rw n
        (elim (eq-cases k ndirect) [ inl (e, _) ↦ ap f e ∙ z | inr (ne, _) ↦ cut k (omega arith) ])
  | inr (_, n) ↦ rw n (elim (eq-cases k ndirect) [
    | inl (e, _) ↦ rw e (update_self f ndirect 0)
    | inr (ne, _) ↦ update_other f ndirect 0 k ne ∙ cut k (omega arith)
  ])
]

-- What itrunc's loops come to: each block has been freed, and all addresses are cleared.
pub trunc-blocks :
    (i : Dinode) (words : ℕ → ℕ → ℕ) (freed : List ℕ)
    → let out = trunc_block words (trunc_direct ndirect i.addrs freed) in
      (out.1 ≡ freed ++ blocks_of i words) × ((k : ℕ) → k ≤ ndirect → out.0 k ≡ 0)
unfolding blocks_of
trunc-blocks i words freed =
    let (cut, above, _) = trunc_direct-addrs ndirect i.addrs freed (omega arith) in
    let e = trunc_direct-freed ndirect i.addrs freed (omega arith) in
    let f = (trunc_direct ndirect i.addrs freed).0 in
    (
      ap (λ (xs : List ℕ). (trunc_block words (f, xs)).1) e
          ∙ trunc_block-freed words f (i.addrs ndirect) freed (used ndirect ndirect i.addrs)
              (above ndirect (omega arith)),
      trunc_block-addrs words f (trunc_direct ndirect i.addrs freed).1
          (λ j lo. cut j (omega arith) lo),
    )

-- `d'` is the device `d` when the inode `i` has been freed on it, with its blocks.
pub record IsFreed (i : Inode) (d d' : Device) : Type 0 where
  pub gone : (d'.dinodes i.inum).type ≡ 0
  pub empty : (d'.dinodes i.inum).size ≡ 0
  pub cut : (k : ℕ) → k ≤ ndirect → (d'.dinodes i.inum).addrs k ≡ 0
  pub freed : d'.freed ≡ d.freed ++ blocks_of i.copy d.words
  pub others : (n : ℕ) → n ≢ i.inum → d'.dinodes n ≡ d.dinodes n

-- The last iupdate of iput, behind the one of itrunc
written_twice :
    (D : ℕ → Dinode) (n : ℕ) (a b : Dinode) (m : ℕ) → m ≢ n → update (update D n a) n b m ≡ D m
written_twice D n a b m ne = update_other (update D n a) n b m ne ∙ update_other D n a m ne

pub iput_free-IsFreed : (i : Inode) (d : Device) → IsFreed i d (iput_free i d).1
unfolding iput_free itrunc iupdate
iput_free-IsFreed i d =
    let (blocks, cut) = trunc-blocks i.copy d.words d.freed in
    let first = (itrunc i d).0.copy in
    let last = (iput_free i d).0.copy in
    let at : (iput_free i d).1.dinodes i.inum ≡ last =
      update_self (update d.dinodes i.inum first) i.inum last in
    record {
      gone = ap (λ (c : Dinode). c.type) at;
      empty = ap (λ (c : Dinode). c.size) at;
      cut = λ k le. ap (λ (c : Dinode). c.addrs k) at ∙ cut k le;
      freed = blocks;
      others = written_twice d.dinodes i.inum first last;
    }

-- The entry keeps its name and its references meanwhile.
pub iput_free-same :
    (i : Inode) (d : Device)
    → ((iput_free i d).0.dev ≡ i.dev)
      × ((iput_free i d).0.inum ≡ i.inum)
      × ((iput_free i d).0.ref ≡ i.ref)
unfolding iput_free itrunc iupdate
iput_free-same i d = (refl, refl, refl)
