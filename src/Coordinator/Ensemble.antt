-- ===== src/Coordinator/Ensemble.antt =====
-- `NewCoordinatorNode` (internal/coordinator/coordinator.go) on the nodes of one ensemble.
use ensemble_chat.Common.{
  dec_le, subst, ap₂, ℕ, ◌≤◌, ◌≡◌, refl, sym, ◌∙◌, some, List, [], ◌∷◌, arith,
}
use mathlib.Core.List.Perm
use mathlib.Core.List.{Perm, Permᴰ, is_set}
use ensemble_chat.TokenRing.{new_token_ring_manager}
use ensemble_chat.Coordinator.{
  CoordinatorNode, insert_sorted, sort, all_nodes, start_node, new_coordinator_node,
}

insert_insert :
    (x y : ℕ) (l : List ℕ)
    → insert_sorted x (insert_sorted y l) ≡ insert_sorted y (insert_sorted x l)
unfolding insert_sorted
insert_insert x y [] = ground arith
insert_insert x y (z ∷ l) = ground (arith, insert_insert x y l)

sort-perm : {xs ys : List ℕ} → Permᴰ xs ys → sort xs ≡ sort ys
unfolding sort
sort-perm Permᴰ.nil = refl
sort-perm (Permᴰ.cons e d) = ap₂ insert_sorted e (sort-perm d)
sort-perm (Permᴰ.swap {a = a} {b = b} {l = l} e f) =
    insert_insert a b (sort l) ∙ ap₂ (λ x y. insert_sorted x (insert_sorted y (sort l))) f e
sort-perm (Permᴰ.trans d d') = sort-perm d ∙ sort-perm d'

ℕ_is_set : IsSet ℕ
ℕ_is_set = hlevel

sort_Perm : {xs ys : List ℕ} → Perm xs ys → sort xs ≡ sort ys
sort_Perm {xs} {ys} p = ∥∥₁_rec (is_set ℕ_is_set (sort xs) (sort ys)) sort-perm p

insert_first : (x : ℕ) (l : List ℕ) → (h : ℕ) × (t : List ℕ) × (insert_sorted x l ≡ h ∷ t) × (h ≤ x)
unfolding insert_sorted
insert_first x [] = (x, [], refl, omega arith)
insert_first x (y ∷ ys) = elim (dec_le x y) [
  | yes l ↦ (x, y ∷ ys, ground arith, omega arith)
  | no g ↦ (y, insert_sorted x ys, ground arith, omega (arith, g))
]

head_inj : {x y : ℕ} {xs ys : List ℕ} → x ∷ xs ≡ y ∷ ys → x ≡ y
head_inj h = cc

built :
    (id : ℕ) (peer_ids : List ℕ) (now draw : ℕ) (h : ℕ) (t : List ℕ)
    → all_nodes id peer_ids ≡ h ∷ t
    → (n : CoordinatorNode) × (new_coordinator_node id peer_ids now draw ≡ some n)
      × (n.token_ring ≡ new_token_ring_manager id (h ∷ t) h)
unfolding new_coordinator_node
built id peer_ids now draw h t e =
    (start_node id peer_ids now draw (h ∷ t) h, rw (e, new_coordinator_node) refl, refl)

insert_sorted_Perm : (x : ℕ) (l : List ℕ) → Perm (insert_sorted x l) (x ∷ l)
unfolding insert_sorted
insert_sorted_Perm x [] = Perm.refl (x ∷ [])
insert_sorted_Perm x (y ∷ ys) = elim (dec_le x y) [
  | yes l ↦ subst (λ zs. Perm zs (x ∷ y ∷ ys)) (ground arith) (Perm.refl (x ∷ y ∷ ys))
  | no g ↦
      subst (λ zs. Perm zs (x ∷ y ∷ ys)) (ground (arith, g))
        (Perm.trans (Perm.cons y (insert_sorted_Perm x ys)) (Perm.swap x y ys))
]

sort-Perm : (l : List ℕ) → Perm (sort l) l
unfolding sort
sort-Perm [] = Perm.refl []
sort-Perm (x ∷ xs) = Perm.trans (insert_sorted_Perm x (sort xs)) (Perm.cons x (sort-Perm xs))

-- x is at most the first of the list.
abbrev IsBelow : ℕ → List ℕ → Type 0
IsBelow x [] = Unit
IsBelow x (y ∷ ys) = x ≤ y

abbrev pub IsAscending : List ℕ → Type 0
IsAscending [] = Unit
IsAscending (x ∷ xs) = IsBelow x xs × IsAscending xs

insert_sorted-IsBelow : (y x : ℕ) (l : List ℕ) → y ≤ x → IsBelow y l → IsBelow y (insert_sorted x l)
unfolding insert_sorted
insert_sorted-IsBelow y x [] h b = h
insert_sorted-IsBelow y x (z ∷ zs) h b = elim (dec_le x z) [
  | yes l ↦ subst (IsBelow y) {x = x ∷ z ∷ zs} (ground arith) h
  | no g ↦ subst (IsBelow y) {x = z ∷ insert_sorted x zs} (ground (arith, g)) b
]

insert_sorted-IsAscending : (x : ℕ) (l : List ℕ) → IsAscending l → IsAscending (insert_sorted x l)
unfolding insert_sorted
insert_sorted-IsAscending x [] h = (tt, tt)
insert_sorted-IsAscending x (y ∷ ys) (b, h) = elim (dec_le x y) [
  | yes l ↦ subst IsAscending {x = x ∷ y ∷ ys} (ground arith) (l, (b, h))
  | no g ↦
      subst IsAscending {x = y ∷ insert_sorted x ys} (ground (arith, g))
        (insert_sorted-IsBelow y x ys (omega (arith, g)) b, insert_sorted-IsAscending x ys h)
]

sort-IsAscending : (l : List ℕ) → IsAscending (sort l)
unfolding sort
sort-IsAscending [] = tt
sort-IsAscending (x ∷ xs) = insert_sorted-IsAscending x (sort xs) (sort-IsAscending xs)

-- Two nodes of one ensemble, whose own number and peers are the same numbers in some order, are both
-- built without a panic, with one ring and one initial holder of the token. The ring has the numbers
-- of all the nodes, in ascending order, and the holder is the first of them, which is not above either node's number.
pub coordinators_agree :
    (id id' : ℕ) (peer_ids peer_ids' : List ℕ) (now now' draw draw' : ℕ)
    → Perm (id ∷ peer_ids) (id' ∷ peer_ids')
    → (n : CoordinatorNode) × (n' : CoordinatorNode) × (holder : ℕ) × (others : List ℕ)
      × (new_coordinator_node id peer_ids now draw ≡ some n)
      × (new_coordinator_node id' peer_ids' now' draw' ≡ some n')
      × (n.token_ring ≡ new_token_ring_manager id (holder ∷ others) holder)
      × (n'.token_ring ≡ new_token_ring_manager id' (holder ∷ others) holder)
      × Perm (holder ∷ others) (id ∷ peer_ids)
      × IsAscending (holder ∷ others)
      × (holder ≤ id)
      × (holder ≤ id')
unfolding all_nodes sort
coordinators_agree id id' peer_ids peer_ids' now now' draw draw' p =
    let (h, t, e, l) = insert_first id (sort peer_ids) in
    let (h', t', e', l') = insert_first id' (sort peer_ids') in
    let same = sort_Perm p in
    let (n, b, r) = built id peer_ids now draw h t e in
    let (n', b', r') = built id' peer_ids' now' draw' h t (sym same ∙ e) in
    (
      n,
      n',
      h,
      t,
      b,
      b',
      r,
      r',
      subst (λ xs. Perm xs (id ∷ peer_ids)) e (sort-Perm (id ∷ peer_ids)),
      subst IsAscending e (sort-IsAscending (id ∷ peer_ids)),
      l,
      omega (arith, l', head_inj (sym e ∙ same ∙ e')),
    )
