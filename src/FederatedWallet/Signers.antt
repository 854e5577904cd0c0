-- ===== src/FederatedWallet/Signers.antt =====
-- The signers that a wallet of several federations reports.
use emvault_elements.Prelude.{
  ℕ, ◌≡◌, ◌↔◌, refl, sym, ap, ◌∙◌, subst, inl, inr, true, false, List, [], ◌∷◌, any, filter, ◌==◌,
  Bool-cases, IsMember, any_iff, IsMember-append,
}
use mathlib.Core.Bool.{true≢false}
use emvault_elements.Prelude.Tests.{nat_eq}
use emvault_elements.Pset.Coordinator.Quorum.{IsDistinct}
use emvault_elements.FederatedWallet.{
  Version, ElementsFederatedWallet, collect_ids, signers_of, all_signer_ids, find_by_signer,
}

collect_ids_iff : (id : ℕ) (ids : List ℕ) → IsMember id (collect_ids ids) ↔ IsMember id ids
unfolding collect_ids
collect_ids_iff id [] = (λ m. m, λ m. m)
collect_ids_iff id (x ∷ xs) =
    let rest = collect_ids_iff id xs in
    elim (Bool-cases (any (λ y. y == x) (collect_ids xs))) [
      | inl repeated ↦ rw repeated (
        λ m. inr (rest.0 m),
        λ m. elim m [
          | inl same ↦
              subst (λ y. IsMember y (collect_ids xs)) (sym same)
                ((any_iff x (collect_ids xs)).0 repeated)
          | inr later ↦ rest.1 later
        ],
      )
      | inr new ↦ rw new (
        λ m. elim m [ inl same ↦ inl same | inr later ↦ inr (rest.0 later) ],
        λ m. elim m [ inl same ↦ inl same | inr later ↦ inr (rest.1 later) ],
      )
    ]

collect_ids-IsDistinct : (ids : List ℕ) → IsDistinct (collect_ids ids)
unfolding collect_ids IsDistinct
collect_ids-IsDistinct [] = tt
collect_ids-IsDistinct (x ∷ xs) = elim (Bool-cases (any (λ y. y == x) (collect_ids xs))) [
  | inl repeated ↦ rw repeated (collect_ids-IsDistinct xs)
  | inr new ↦ rw new (new, collect_ids-IsDistinct xs)
]

-- Some version of the list has a federation with this signer.
pub record SignsIn (id : ℕ) (versions : List Version) : Type 0 where
  pub version : Version
  pub listed : IsMember version versions
  pub signs : IsMember id version.federation.signers

signers_of_iff :
    (id : ℕ) (versions : List Version) → IsMember id (signers_of versions) ↔ SignsIn id versions
unfolding signers_of
signers_of_iff id [] = (λ m. elim m [ ], λ s. elim s.listed [ ])
signers_of_iff id (v ∷ vs) =
    let rest = signers_of_iff id vs in
    let either = IsMember-append id v.federation.signers (signers_of vs) in
    (
      λ m. elim (either.0 m) [
        | inl here ↦ record { version = v; listed = inl refl; signs = here }
        | inr there ↦
            let s = rest.0 there in
            record { version = s.version; listed = inr s.listed; signs = s.signs }
      ],
      λ s. elim s.listed [
        | inl same ↦
            either.1 (inl (subst (λ (x : Version). IsMember id x.federation.signers) same s.signs))
        | inr later ↦
            either.1
              (inr (rest.1 (record { version = s.version; listed = later; signs = s.signs })))
      ],
    )

-- `all_signer_ids` has each id that signs in some version of the wallet, and no other id, once.
pub all_signer_ids_iff :
    (w : ElementsFederatedWallet)
    → ((id : ℕ) → IsMember id (all_signer_ids w) ↔ SignsIn id w.federation_wallets)
      × IsDistinct (all_signer_ids w)
unfolding all_signer_ids
all_signer_ids_iff w = (
  λ id.
      let c = collect_ids_iff id (signers_of w.federation_wallets) in
      let s = signers_of_iff id w.federation_wallets in (λ m. s.0 (c.0 m), λ m. c.1 (s.1 m)),
  collect_ids-IsDistinct (signers_of w.federation_wallets),
)

not-contains :
    (id : ℕ) (v x : Version)
    → v ≡ x
    → x.federation.contains id ≡ false
    → v.federation.contains id ≡ true
    → ⊥
not-contains id v x same other held =
    true≢false (sym held ∙ ap (λ (y : Version). y.federation.contains id) same ∙ other)

filter_iff :
    (id : ℕ) (v : Version) (versions : List Version)
    → IsMember v (filter (λ (fw : Version). fw.federation.contains id) versions)
      ↔ (IsMember v versions × (v.federation.contains id ≡ true))
filter_iff id v [] = (λ m. elim m [ ], λ m. elim m.0 [ ])
filter_iff id v (x ∷ xs) =
    let rest = filter_iff id v xs in
    elim (Bool-cases (x.federation.contains id)) [
      | inl held ↦
          rw (held, filter)
            (
              λ m. elim m [
                | inl same ↦ (
                  inl same,
                  subst (λ (y : Version). y.federation.contains id ≡ true) (sym same) held,
                )
                | inr later ↦ (inr (rest.0 later).0, (rest.0 later).1)
              ],
              λ m. elim m.0 [ inl same ↦ inl same | inr later ↦ inr (rest.1 (later, m.1)) ],
            )
      | inr other ↦
          rw (other, filter)
            (
              λ m. (inr (rest.0 m).0, (rest.0 m).1),
              λ m. elim m.0 [
                | inl same ↦ absurd (not-contains id v x same other m.1)
                | inr later ↦ rest.1 (later, m.1)
              ],
            )
    ]

-- If `contains` of every version says whether the id is one of its signers, then `find_by_signer`
-- returns exactly the versions that the id signs in, and some version exactly if the id is one of
-- `all_signer_ids`.
pub find_by_signer_iff :
    (w : ElementsFederatedWallet) (id : ℕ)
    → ((v : Version)
        → IsMember v w.federation_wallets
        → (v.federation.contains id ≡ true) ↔ IsMember id v.federation.signers)
    → ((v : Version)
        → IsMember v (find_by_signer w id)
          ↔ (IsMember v w.federation_wallets × IsMember id v.federation.signers))
      × (IsMember id (all_signer_ids w) ↔ ((v : Version) × IsMember v (find_by_signer w id)))
unfolding find_by_signer
find_by_signer_iff w id says =
    let found = λ (v : Version). filter_iff id v w.federation_wallets in
    let all = (all_signer_ids_iff w).0 id in
    (
      λ v. (
        λ m. (((found v).0 m).0, (says v ((found v).0 m).0).0 ((found v).0 m).1),
        λ m. (found v).1 (m.0, (says v m.0).1 m.1),
      ),
      (
        λ m.
            let s = all.0 m in
            (s.version, (found s.version).1 (s.listed, (says s.version s.listed).1 s.signs)),
        λ e.
            let h = (found e.0).0 e.1 in
            all.1 (record { version = e.0; listed = h.0; signs = (says e.0 h.0).0 h.1 }),
      ),
    )
