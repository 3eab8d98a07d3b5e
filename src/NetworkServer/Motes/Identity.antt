-- ===== src/NetworkServer/Motes/Identity.antt =====
-- Which mote `getMote` gives.
use lo_ra_wan_backend.Base.{
  ℕ, zero, suc, ◌≡◌, refl, ap, ◌∙◌, sym, true, false, [], ◌∷◌, Option, none, some, Bool-cases, inl,
  inr,
}
use mathlib.Core.Option.{some-injective, none-ne-some}
use lo_ra_wan_backend.NetworkServer.Collect.{Mote}
use lo_ra_wan_backend.NetworkServer.Motes.{
  Motes, associated, create_mote, is_sought, with_dev_addr, further, find_mote, create_mote_on_list,
  or_create, get_mote, mote_at,
}

-- All other places hold what they held.
abbrev pub SameBut : ℕ → Motes → Motes → Type 0
SameBut place motes motes' =
    (other : ℕ) → ¬ (other ≡ place) → mote_at motes' other ≡ mote_at motes other

-- What a search finds: the mote with its DevAddr set, or nothing, when no mote is the sought one.
pub data Searched (dev_eui dev_addr : ℕ) (motes : Motes) : Option (ℕ × Motes) → Type 0 where
  hit :
      {place : ℕ} {motes' : Motes} {m : Mote}
      → mote_at motes place ≡ some m
      → is_sought dev_eui dev_addr m ≡ true
      → mote_at motes' place ≡ some (with_dev_addr dev_eui dev_addr m)
      → SameBut place motes motes'
      → Searched dev_eui dev_addr motes (some (place, motes'))
  miss :
      ((place : ℕ) (m : Mote) → mote_at motes place ≡ some m → is_sought dev_eui dev_addr m ≡ false)
      → Searched dev_eui dev_addr motes none

same_further :
    (x : Option Mote) (place : ℕ) (motes motes' : Motes)
    → SameBut place motes motes'
    → SameBut (suc place) (x ∷ motes) (x ∷ motes')
unfolding mote_at
same_further x place motes motes' h zero n = refl
same_further x place motes motes' h (suc other) n = h other (λ e. n (ap suc e))

same_here : (x y : Option Mote) (motes : Motes) → SameBut 0 (x ∷ motes) (y ∷ motes)
unfolding mote_at
same_here x y motes zero n = absurd (n refl)
same_here x y motes (suc other) n = refl

same_nil : (x : Option Mote) → SameBut 0 [] (x ∷ [])
unfolding mote_at
same_nil x zero n = absurd (n refl)
same_nil x (suc other) n = refl

further_miss :
    (e a : ℕ) (x : Option Mote) (motes : Motes)
    → ((m : Mote) → x ≡ some m → is_sought e a m ≡ false)
    → ((place : ℕ) (m : Mote) → mote_at motes place ≡ some m → is_sought e a m ≡ false)
    → (place : ℕ) (m : Mote) → mote_at (x ∷ motes) place ≡ some m
    → is_sought e a m ≡ false
unfolding mote_at
further_miss e a x motes other h zero m at = other m at
further_miss e a x motes other h (suc place) m at = h place m at

further-Searched :
    (e a : ℕ) (x : Option Mote) (motes : Motes) (r : Option (ℕ × Motes))
    → ((m : Mote) → x ≡ some m → is_sought e a m ≡ false)
    → Searched e a motes r
    → Searched e a (x ∷ motes) (further x r)
unfolding mote_at
further-Searched e a x motes none other (miss h) = miss (further_miss e a x motes other h)
further-Searched e a x motes (some f) other (hit {place} {motes'} {m} at sought now same) =
    hit at sought now (same_further x place motes motes' same)

find_mote-Searched : (e a : ℕ) (motes : Motes) → Searched e a motes (find_mote e a motes)
unfolding find_mote mote_at
find_mote-Searched e a [] = miss (λ place m h. absurd (none-ne-some m h))
find_mote-Searched e a (none ∷ motes) =
    further-Searched e a none motes (find_mote e a motes) (λ m h. absurd (none-ne-some m h))
      (find_mote-Searched e a motes)
find_mote-Searched e a (some m ∷ motes) = elim (Bool-cases (is_sought e a m)) [
  | inl fits ↦ rw fits (hit refl fits refl (same_here (some m) (some (with_dev_addr e a m)) motes))
  | inr other ↦ rw other (
      further-Searched e a (some m) motes (find_mote e a motes)
        (λ m' h. sym (ap (is_sought e a) (some-injective m m' h)) ∙ other)
        (find_mote-Searched e a motes))
]

-- Where a new mote goes.
record Placed (m : Mote) (motes : Motes) (f : ℕ × Motes) : Type 0 where
  before : mote_at motes f.0 ≡ none
  now : mote_at f.1 f.0 ≡ some m
  same : SameBut f.0 motes f.1

create_mote_on_list-Placed :
    (m : Mote) (motes : Motes) → Placed m motes (create_mote_on_list m motes)
unfolding create_mote_on_list mote_at
create_mote_on_list-Placed m [] = record { before = refl; now = refl; same = same_nil (some m) }
create_mote_on_list-Placed m (none ∷ motes) = record {
  before = refl;
  now = refl;
  same = same_here none (some m) motes;
}
create_mote_on_list-Placed m (some x ∷ motes) =
    let rest = create_mote_on_list-Placed m motes in
    record {
      before = rest.before;
      now = rest.now;
      same =
          same_further (some x) (create_mote_on_list m motes).0 motes
            (create_mote_on_list m motes).1 rest.same;
    }

-- The mote that `getMote` gives: the one that was found, or a new one.
pub data Origin (session : ℕ → Option ℕ) (e a : ℕ) (motes : Motes) (place : ℕ) (m : Mote)
    : Type 0 where
  found :
      {old : Mote}
      → mote_at motes place ≡ some old
      → is_sought e a old ≡ true
      → m ≡ with_dev_addr e a old
      → Origin session e a motes place m
  created :
      mote_at motes place ≡ none
      → ((other : ℕ) (x : Mote) → mote_at motes other ≡ some x → is_sought e a x ≡ false)
      → m ≡ create_mote session e a
      → Origin session e a motes place m

pub record Gives (session : ℕ → Option ℕ) (e a : ℕ) (motes : Motes) (f : ℕ × Motes) : Type 0 where
  pub mote : Mote
  pub at : mote_at f.1 f.0 ≡ some mote
  pub origin : Origin session e a motes f.0 mote
  pub same : SameBut f.0 motes f.1

or_create-Gives :
    (session : ℕ → Option ℕ) (e a : ℕ) (motes : Motes) (r : Option (ℕ × Motes))
    → Searched e a motes r
    → Gives session e a motes (or_create (create_mote session e a) motes r)
or_create-Gives session e a motes none (miss h) =
    let placed = create_mote_on_list-Placed (create_mote session e a) motes in
    record {
      mote = create_mote session e a;
      at = placed.now;
      origin = created placed.before h refl;
      same = placed.same;
    }
or_create-Gives session e a motes (some f) (hit {place} {motes'} {m} at sought now same) = record {
  mote = with_dev_addr e a m;
  at = now;
  origin = found at sought refl;
  same = same;
}

-- getMote, asked with a DevEUI or a DevAddr, for which the session of the DevAddr gives the DevEUI if
-- there is one, gives the mote in the list that has the DevEUI, or the DevAddr when there is no
-- DevEUI; when there is none, a new one in a place that held none; all other places are unchanged.
pub get_mote-Gives :
    (session : ℕ → Option ℕ) (dev_eui dev_addr : ℕ) (motes : Motes)
    → Gives session
        (associated session dev_eui dev_addr)
        dev_addr
        motes
        (get_mote session dev_eui dev_addr motes)
unfolding get_mote
get_mote-Gives session dev_eui dev_addr motes =
    let e = associated session dev_eui dev_addr in
    or_create-Gives session e dev_addr motes (find_mote e dev_addr motes)
      (find_mote-Searched e dev_addr motes)
