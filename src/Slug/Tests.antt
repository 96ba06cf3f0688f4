-- ===== src/Slug/Tests.antt =====
-- Runs of `to_kebab_case`, and its laws at concrete inputs.
use codealmanac.Prelude.{[], ◌≡◌, refl, ◌↔◌, codes}
use codealmanac.Slug.{to_kebab_case}
use codealmanac.Slug.Laws.{IsSlug, to_kebab_case-eq-self_iff, to_kebab_case-IsSlug}

flow : to_kebab_case (codes "  Checkout_Flow -- v2! ") ≡ codes "checkout-flow-v2"
unfolding to_kebab_case
flow = refl

nothing : to_kebab_case (codes "--!?--") ≡ []
unfolding to_kebab_case
nothing = refl

to_kebab_case-IsSlug_example : IsSlug (to_kebab_case (codes "Checkout_Flow"))
to_kebab_case-IsSlug_example = to_kebab_case-IsSlug (codes "Checkout_Flow")

to_kebab_case-eq-self_iff_example :
    (to_kebab_case (codes "a--b") ≡ codes "a--b") ↔ IsSlug (codes "a--b")
to_kebab_case-eq-self_iff_example = to_kebab_case-eq-self_iff (codes "a--b")
