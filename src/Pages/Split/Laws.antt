-- ===== src/Pages/Split/Laws.antt =====
-- The parts of a page make up the page (wiki/topics/frontmatter-rewrite.ts).
use codealmanac.Prelude.{
  ◌≡◌, refl, subst, ap, inl, inr, some, [], ◌∷◌, ◌++◌, Text, Option-cases, arith,
}
use codealmanac.Pages.Split.{
  fence, strip_prefix, take_newline, fence_at, find_fence, frontmatter_block, SplitFrontmatter,
  split_closer, split_opened, split_frontmatter, opener_of, closer_of,
}

strip_prefix_lem : (p s t : Text) → strip_prefix p s ≡ some t → s ≡ p ++ t
unfolding strip_prefix
strip_prefix_lem [] s t h = ground arith
strip_prefix_lem (c ∷ p) [] t h = absurd (cc h)
strip_prefix_lem (c ∷ p) (d ∷ s) t h = ground (arith, strip_prefix_lem p s t)

take_newline_lem : (s n t : Text) → take_newline s ≡ some (n, t) → s ≡ n ++ t
unfolding take_newline
take_newline_lem [] n t h = absurd (cc h)
take_newline_lem (c ∷ []) n t h = ground arith
take_newline_lem (c ∷ d ∷ s) n t h = ground arith

fence_at_lem : (s n t : Text) → fence_at s ≡ some (n, t) → s ≡ n ++ (fence ++ t)
unfolding fence_at
fence_at_lem s n t h = elim (Option-cases (take_newline s)) [
  | inl e ↦ ground (arith, e)
  | inr ((m, u), e) ↦ elim (Option-cases (strip_prefix fence u)) [
    | inl f ↦ ground (arith, e, f)
    | inr (v, f) ↦ ground (arith, e, f, take_newline_lem s m u e, strip_prefix_lem fence u v f)
  ]
]

find_fence_lem : (s block t : Text) → find_fence s ≡ some (block, t) → s ≡ block ++ (fence ++ t)
unfolding find_fence
find_fence_lem [] block t h = absurd (cc h)
find_fence_lem (c ∷ s) block t h = elim (Option-cases (fence_at (c ∷ s))) [
  | inr ((m, u), e) ↦ ground (arith, e, fence_at_lem (c ∷ s) m u e)
  | inl e ↦ elim (Option-cases (find_fence s)) [
    | inl f ↦ ground (arith, e, f)
    | inr ((b, u), f) ↦ ground (arith, e, f, find_fence_lem s b u f)
  ]
]

frontmatter_block_lem :
    (rest block t : Text) → frontmatter_block rest ≡ some (block, t) → rest ≡ block ++ (fence ++ t)
unfolding frontmatter_block
frontmatter_block_lem rest block t h = elim (Option-cases (strip_prefix fence rest)) [
  | inl e ↦ ground (arith, e, find_fence_lem rest block t)
  | inr (u, e) ↦ ground (arith, e, strip_prefix_lem fence rest u e)
]

split_closer_lem :
    (newline block t : Text)
    → ((split_closer newline (block, t)).newline ≡ newline)
      × (block ++ (fence ++ t)
          ≡ (split_closer newline (block, t)).block
            ++ (closer_of (split_closer newline (block, t))
                ++ (split_closer newline (block, t)).body))
unfolding split_closer
split_closer_lem newline block t = elim (Option-cases (take_newline t)) [
  | inl e ↦ rw (e, split_closer) (refl, refl)
  | inr ((n, u), e) ↦
      rw (e, split_closer) (refl, ap (λ x. block ++ (fence ++ x)) (take_newline_lem t n u e))
]

-- A page is its opener, the block, the closer and the body, in this order.
pub split_frontmatter_lem :
    (raw : Text) (p : SplitFrontmatter)
    → split_frontmatter raw ≡ some p
    → raw ≡ opener_of p ++ (p.block ++ (closer_of p ++ p.body))
unfolding split_frontmatter split_opened
split_frontmatter_lem raw p h = elim (Option-cases (strip_prefix fence raw)) [
  | inl e ↦ ground (arith, e)
  | inr (u, e) ↦ elim (Option-cases (take_newline u)) [
    | inl f ↦ ground (arith, e, f)
    | inr ((n, v), f) ↦ elim (Option-cases (frontmatter_block v)) [
      | inl g ↦ ground (arith, e, f, g)
      | inr ((b, t), g) ↦
          let k : split_closer n (b, t) ≡ p = ground (arith, e, f, g) in
          let (same_newline, rest) = split_closer_lem n b t in
          subst (λ q. raw ≡ opener_of q ++ (q.block ++ (closer_of q ++ q.body))) k
            (cc (
              strip_prefix_lem fence raw u e,
              take_newline_lem u n v f,
              frontmatter_block_lem v b t g,
              same_newline,
              rest,
            ))
    ]
  ]
]
