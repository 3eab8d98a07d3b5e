-- ===== src/NetworkServer/Motes/Distinct.antt =====
-- That a DevEUI has one mote in the list.
use lo_ra_wan_backend.Base.{
  ℕ, ◌≡◌, ◌<◌, refl, ap, ◌∙◌, sym, arith, false, if◌then◌else◌, ◌==◌, Option, none, some,
  Bool-cases, inl, inr,
}
use mathlib.Core.Option.{some-injective}
use lo_ra_wan_backend.NetworkServer.MoteLookup.{none_dev_eui}
use lo_ra_wan_backend.NetworkServer.Collect.{Mote}
use lo_ra_wan_backend.NetworkServer.Motes.{
  Motes, associated, or_session, create_mote, is_sought, with_dev_addr, get_mote, mote_at,
}
use lo_ra_wan_backend.NetworkServer.Motes.Identity.{Origin, found, created, Gives, get_mote-Gives}

-- No two motes of the list have the same DevEUI.
abbrev pub IsDistinct : Motes → Type 0
IsDistinct motes =
    (i j : ℕ) (x y : Mote)
    → mote_at motes i ≡ some x
    → mote_at motes j ≡ some y
    → x.dev_eui ≡ y.dev_eui
    → x.dev_eui < none_dev_eui
    → i ≡ j

with_dev_addr-dev_eui : (e a : ℕ) (m : Mote) → (with_dev_addr e a m).dev_eui ≡ m.dev_eui
unfolding with_dev_addr
with_dev_addr-dev_eui e a m = ground arith

sought-dev_eui : (e a : ℕ) (m : Mote) → e < none_dev_eui → is_sought e a m ≡ (e == m.dev_eui)
unfolding is_sought
sought-dev_eui e a m h = ground arith

-- Asked again for what is known, nothing more is known.
or_session_twice :
    (o : Option ℕ) (e : ℕ)
    → e ≡ none_dev_eui
    → (if or_session e o == none_dev_eui then or_session (or_session e o) o else or_session e o)
      ≡ or_session e o
or_session_twice none e h = ground arith
or_session_twice (some d) e h = ground arith

associated_twice :
    (session : ℕ → Option ℕ) (e a : ℕ)
    → associated session (associated session e a) a ≡ associated session e a
unfolding associated
associated_twice session e a = elim (Bool-cases (e == none_dev_eui)) [
  | inl none_known ↦ rw none_known (or_session_twice (session a) e (ground arith))
  | inr known ↦ rw known (rw known refl)
]

module _ (session : ℕ → Option ℕ) (e a : ℕ) (twice : associated session e a ≡ e) (motes : Motes)
    (f : ℕ × Motes) (distinct : IsDistinct motes) where
  same_place :
      (m : Mote)
      → Origin session e a motes f.0 m
      → (j : ℕ) (y : Mote) → mote_at motes j ≡ some y
      → m.dev_eui ≡ y.dev_eui
      → y.dev_eui < none_dev_eui
      → f.0 ≡ j
  unfolding create_mote
  same_place m (found {old} at fits here) j y h k l =
      let same : old.dev_eui ≡ m.dev_eui =
        sym (ap (λ (x : Mote). x.dev_eui) here ∙ with_dev_addr-dev_eui e a old) in
      distinct f.0 j old y at h (same ∙ k) (omega (arith, same, k, l))
  same_place m (created at other here) j y h k l =
      let new : m.dev_eui ≡ e = ap (λ (x : Mote). x.dev_eui) here ∙ twice in
      let fits : is_sought e a y ≡ (e == y.dev_eui) =
        sought-dev_eui e a y (omega (arith, new, k, l)) in
      let not_so : is_sought e a y ≡ false = other j y h in
      absurd (ground (arith, new, k, fits, not_so))

  kept_place :
      Gives session e a motes f
      → (i j : ℕ) (x y : Mote) → mote_at f.1 i ≡ some x
      → mote_at f.1 j ≡ some y
      → x.dev_eui ≡ y.dev_eui
      → x.dev_eui < none_dev_eui
      → i ≡ f.0
      → i ≡ j
  kept_place g i j x y hx hy k l place =
      let x_here : g.mote ≡ x =
        some-injective g.mote x (sym g.at ∙ sym (ap (mote_at f.1) place) ∙ hx) in
      elim (Bool-cases (j == f.0)) [
        | inl there ↦ ground (arith, place, there)
        | inr there ↦
            place
            ∙ same_place g.mote g.origin j y (sym (g.same j (ground (arith, there))) ∙ hy)
                (ap (λ (m : Mote). m.dev_eui) x_here ∙ k) (omega (arith, k, l))
      ]

  Gives-IsDistinct : Gives session e a motes f → IsDistinct f.1
  Gives-IsDistinct g i j x y hx hy k l = elim (Bool-cases (i == f.0)) [
    | inl here ↦ kept_place g i j x y hx hy k l (ground (arith, here))
    | inr here ↦ elim (Bool-cases (j == f.0)) [
      | inl there ↦
          sym (kept_place g j i y x hy hx (sym k) (omega (arith, k, l)) (ground (arith, there)))
      | inr there ↦
          distinct i j x y (sym (g.same i (ground (arith, here))) ∙ hx)
            (sym (g.same j (ground (arith, there))) ∙ hy) k l
    ]
  ]

-- getMote keeps a list in which no DevEUI has two motes as it is in this respect, whatever the sessions
-- of the database are.
pub get_mote-IsDistinct :
    (session : ℕ → Option ℕ) (dev_eui dev_addr : ℕ) (motes : Motes)
    → IsDistinct motes
    → IsDistinct (get_mote session dev_eui dev_addr motes).1
get_mote-IsDistinct session dev_eui dev_addr motes h =
    Gives-IsDistinct session (associated session dev_eui dev_addr) dev_addr
      (associated_twice session dev_eui dev_addr) motes (get_mote session dev_eui dev_addr motes) h
      (get_mote-Gives session dev_eui dev_addr motes)

has_eui :
    (session : ℕ → Option ℕ) (e a : ℕ) (motes : Motes) (place : ℕ) (m : Mote)
    → associated session e a ≡ e
    → e < none_dev_eui
    → Origin session e a motes place m
    → m.dev_eui ≡ e
unfolding create_mote
has_eui session e a motes place m twice l (found {old} at fits here) =
    let is_sought_eui : is_sought e a old ≡ (e == old.dev_eui) = sought-dev_eui e a old l in
    let same : old.dev_eui ≡ e = ground (arith, fits, is_sought_eui) in
    ap (λ (x : Mote). x.dev_eui) here ∙ with_dev_addr-dev_eui e a old ∙ same
has_eui session e a motes place m twice l (created at other here) =
    ap (λ (x : Mote). x.dev_eui) here ∙ twice

-- Two frames are of one device when the DevEUI they carry, or that of the session of their DevAddr, is
-- the same. In a list in which no DevEUI has two motes the second one gets to the mote that the first
-- one got to, whatever the sessions are then, as after a join request with a new DevAddr.
pub get_mote_again :
    (session session' : ℕ → Option ℕ) (dev_eui dev_addr dev_eui' dev_addr' : ℕ) (motes : Motes)
    → IsDistinct motes
    → associated session dev_eui dev_addr ≡ associated session' dev_eui' dev_addr'
    → associated session dev_eui dev_addr < none_dev_eui
    → (get_mote session' dev_eui' dev_addr' (get_mote session dev_eui dev_addr motes).1).0
      ≡ (get_mote session dev_eui dev_addr motes).0
get_mote_again session session' dev_eui dev_addr dev_eui' dev_addr' motes h k l =
    let e = associated session dev_eui dev_addr in
    let e' = associated session' dev_eui' dev_addr' in
    let f = get_mote session dev_eui dev_addr motes in
    let f' = get_mote session' dev_eui' dev_addr' f.1 in
    let g = get_mote-Gives session dev_eui dev_addr motes in
    let g' = get_mote-Gives session' dev_eui' dev_addr' f.1 in
    let eui : g.mote.dev_eui ≡ e =
      has_eui session e dev_addr motes f.0 g.mote (associated_twice session dev_eui dev_addr) l
        g.origin in
    same_place session' e' dev_addr' (associated_twice session' dev_eui' dev_addr') f.1 f'
      (get_mote-IsDistinct session dev_eui dev_addr motes h) g'.mote g'.origin f.0 g.mote g.at
      (has_eui session' e' dev_addr' f.1 f'.0 g'.mote (associated_twice session' dev_eui' dev_addr')
          (omega (arith, k, l)) g'.origin
        ∙ sym k
        ∙ sym eui)
      (omega (arith, eui, l))
