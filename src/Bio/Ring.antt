-- ===== src/Bio/Ring.antt =====
-- The ring of buffers: links both ways around the head.
use tron_boss_os.Base.{
  ◌≡◌, ◌≢◌, refl, sym, ap, ◌∙◌, true, false, List, [], ◌∷◌, ◌++◌, arith, update, update_self,
  update_other, has, has-append, Distinct,
}
use tron_boss_os.Links.{Ptr}

-- From `a` by way of `xs` to `z`, where each knows the next one and the one before
abbrev pub Linked : (next prev : Ptr → Ptr) (a : Ptr) → List Ptr → (z : Ptr) → Type 0
Linked next prev a [] z = (next a ≡ z) × (prev z ≡ a)
Linked next prev a (x ∷ xs) z = (next a ≡ x) × (prev x ≡ a) × Linked next prev x xs z

pub Linked-frame :
    (n p n' p' : Ptr → Ptr) (a : Ptr) (xs : List Ptr) (z : Ptr)
    → Linked n p a xs z
    → ((u : Ptr) → has u (a ∷ xs) ≡ true → n' u ≡ n u)
    → ((u : Ptr) → has u (z ∷ xs) ≡ true → p' u ≡ p u)
    → Linked n' p' a xs z
Linked-frame n p n' p' a [] z l fn fp = (fn a (ground arith) ∙ l.0, fp z (ground arith) ∙ l.1)
Linked-frame n p n' p' a (x ∷ xs) z l fn fp = (
  fn a (ground arith) ∙ l.0,
  fp x (ground arith) ∙ l.1,
  Linked-frame n p n' p' x xs z l.2 (λ u m. fn u (ground arith)) (λ u m. fp u (ground arith)),
)

-- Who stands before and behind `b`
pub Linked-neighbours :
    (n p : Ptr → Ptr) (a : Ptr) (xs : List Ptr) (b : Ptr) (ys : List Ptr) (z : Ptr)
    → Linked n p a (xs ++ b ∷ ys) z
    → (has (p b) (a ∷ xs) ≡ true) × (has (n b) (z ∷ ys) ≡ true)
Linked-neighbours n p a [] b [] z l = (ground (arith, l), ground (arith, l))
Linked-neighbours n p a [] b (y ∷ ys) z l = (ground (arith, l), ground (arith, l))
Linked-neighbours n p a (x ∷ xs) b ys z l =
    let rest = Linked-neighbours n p x xs b ys z l.2 in (ground (arith, rest.0), rest.1)

update_hit : (f : Ptr → Ptr) (k x j : Ptr) → j ≡ k → update f k x j ≡ x
update_hit f k x j e = ap (update f k x) e ∙ update_self f k x

apart : (xs : List Ptr) {a u : Ptr} → has a xs ≡ false → has u xs ≡ true → a ≢ u
apart xs out m e = absurd (ground (arith, ap (λ (v : Ptr). has v xs) e))

-- Without `b`, once its neighbours know each other
pub Linked-remove :
    (n p : Ptr → Ptr) (a : Ptr) (xs : List Ptr) (b : Ptr) (ys : List Ptr) (z : Ptr)
    → Linked n p a (xs ++ b ∷ ys) z
    → Distinct (a ∷ xs ++ b ∷ ys)
    → has z (xs ++ b ∷ ys) ≡ false
    → Linked (update n (p b) (n b)) (update p (n b) (p b)) a (xs ++ ys) z
Linked-remove n p a [] b [] z l d out =
    (update_hit n (p b) (n b) a (sym l.1) ∙ l.2.0, update_hit p (n b) (p b) z (sym l.2.0) ∙ l.1)
Linked-remove n p a [] b (y ∷ ys) z l d out = (
  update_hit n (p b) (n b) a (sym l.1) ∙ l.2.0,
  update_hit p (n b) (p b) y (sym l.2.0) ∙ l.1,
  Linked-frame n p (update n (p b) (n b)) (update p (n b) (p b)) y ys z l.2.2
      (λ u m.
        update_other n (p b) (n b) u (λ e. apart (y ∷ ys) {a = a} (ground arith) m (sym (e ∙ l.1))))
      (λ u m.
        update_other p (n b) (p b) u
          (λ e. apart (z ∷ ys) {a = y} (ground arith) m (sym (e ∙ l.2.0)))),
)
Linked-remove n p a (x ∷ xs) b ys z l d out =
    let near = Linked-neighbours n p x xs b ys z l.2 in
    (
      update_other n (p b) (n b) a
            (apart (x ∷ xs) (ground (arith, has-append a xs (b ∷ ys))) near.0)
          ∙ l.0,
      update_other p (n b) (p b) x
            (apart (z ∷ ys) (ground (arith, has-append x xs (b ∷ ys))) near.1)
          ∙ l.1,
      Linked-remove n p x xs b ys z l.2 d.1 (ground arith),
    )

-- A ring of the buffers `xs` around the head `h`
abbrev pub Ring : (next prev : Ptr → Ptr) (h : Ptr) → List Ptr → Type 0
Ring next prev h xs = Linked next prev h xs h × Distinct (h ∷ xs)

-- The four assignments that put `b` first
pub Ring-insert :
    (n p : Ptr → Ptr) (h b : Ptr) (xs : List Ptr)
    → Ring n p h xs
    → has b (h ∷ xs) ≡ false
    → Ring (update (update n b (n h)) h b) (update (update p b h) (n h) b) h (b ∷ xs)
Ring-insert n p h b [] r out =
    let ne : b ≢ h = λ e. ground arith in
    (
      (
        update_self (update n b (n h)) h b,
        update_other (update p b h) (n h) b b (λ e. ne (e ∙ r.0.0)) ∙ update_self p b h,
        (
          update_other (update n b (n h)) h b b ne ∙ update_self n b (n h) ∙ r.0.0,
          update_hit (update p b h) (n h) b h (sym r.0.0),
        ),
      ),
      (ground arith, (refl, tt)),
    )
Ring-insert n p h b (x ∷ xs) r out =
    let ne : b ≢ h = λ e. ground arith in
    let nx : b ≢ x = λ e. ground arith in
    (
      (
        update_self (update n b (n h)) h b,
        update_other (update p b h) (n h) b b (λ e. nx (e ∙ r.0.0)) ∙ update_self p b h,
        (
          update_other (update n b (n h)) h b b ne ∙ update_self n b (n h) ∙ r.0.0,
          update_hit (update p b h) (n h) b x (sym r.0.0),
          Linked-frame n p (update (update n b (n h)) h b) (update (update p b h) (n h) b) x xs h
              r.0.2
              (λ u m.
                update_other (update n b (n h)) h b u
                  (λ e. apart (x ∷ xs) {a = h} (ground arith) m (sym e))
                ∙ update_other n b (n h) u (λ e. apart (x ∷ xs) {a = b} (ground arith) m (sym e)))
              (λ u m.
                update_other (update p b h) (n h) b u
                  (λ e. apart (h ∷ xs) {a = x} (ground arith) m (sym (e ∙ r.0.0)))
                ∙ update_other p b h u (λ e. apart (h ∷ xs) {a = b} (ground arith) m (sym e))),
        ),
      ),
      (ground arith, (ground arith, r.1.1)),
    )

Linked-append :
    (n p : Ptr → Ptr) (a : Ptr) (xs : List Ptr) (b : Ptr) (ys : List Ptr) (z : Ptr)
    → Linked n p a xs b
    → Linked n p b ys z
    → Linked n p a (xs ++ b ∷ ys) z
Linked-append n p a [] b ys z l r = (l.0, l.1, r)
Linked-append n p a (x ∷ xs) b ys z l r = (l.0, l.1, Linked-append n p x xs b ys z l.2 r)

-- The buffers from the other end
abbrev pub reverse : List Ptr → List Ptr
reverse [] = []
reverse (x ∷ xs) = reverse xs ++ x ∷ []

pub Linked-reverse :
    (n p : Ptr → Ptr) (a : Ptr) (xs : List Ptr) (z : Ptr)
    → Linked n p a xs z
    → Linked p n z (reverse xs) a
Linked-reverse n p a [] z l = (l.1, l.0)
Linked-reverse n p a (x ∷ xs) z l =
    Linked-append p n z (reverse xs) x [] a (Linked-reverse n p x xs z l.2) (l.1, l.0)
