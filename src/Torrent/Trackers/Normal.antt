-- ===== src/Torrent/Trackers/Normal.antt =====
-- Normalized trackers stay as they are.
use cd.Prelude.{
  ℕ, suc, ◌≡◌, refl, subst, Bool, true, false, List, [], ◌∷◌, ltb, leb, if◌then◌else◌, length, any,
  arith, inl, inr, ◌⊎◌,
}
use cd.Go.Text.{GoString, str_eq}
use cd.Torrent.Names.{Limits, Checked, ok, resource_limit, ◌>>=◌, bind_ok, else_ok, ok_injective}
use cd.Torrent.Trackers.{UrlParse, check_tracker, prepend, tracker_loop, normalize_trackers}

-- Every tracker passes its tests, and none is in `seen` or comes twice.
unfoldable pub Normal : UrlParse → Limits → List GoString → List GoString → Type 0
Normal parse l seen [] = Unit
Normal parse l seen (t ∷ ts) =
    (check_tracker parse l t ≡ ok true)
    × (any (str_eq t) seen ≡ false)
    × Normal parse l (t ∷ seen) ts

-- The result of the loop is normal and no longer than the input.
abbrev pub Bounded : UrlParse → Limits → List GoString → ℕ → List GoString → Type 0
Bounded parse l seen n ts = Normal parse l seen ts × (leb (length ts) n ≡ true)

pub take_or_skip :
    (parse : UrlParse) (l : Limits) (seen : List GoString) (t : GoString) (b : Bool)
    (again onward : Checked (List GoString)) (ts : List GoString)
    → (if b then again else onward) ≡ ok ts
    → (again ≡ ok ts) × (b ≡ true) ⊎ (onward ≡ ok ts) × (b ≡ false)
take_or_skip parse l seen t true again onward ts h = inl (h, refl)
take_or_skip parse l seen t false again onward ts h = inr (h, refl)

check_tracker-true :
    (parse : UrlParse) (l : Limits) (t : GoString) (b : Bool)
    → check_tracker parse l t ≡ ok b
    → check_tracker parse l t ≡ ok true
unfolding check_tracker
check_tracker-true parse l t b h = ground arith

pub tracker_loop-Bounded :
    (parse : UrlParse) (l : Limits) (seen raw ts : List GoString)
    → tracker_loop parse l seen raw ≡ ok ts
    → Bounded parse l seen (length raw) ts
unfolding tracker_loop Normal
tracker_loop-Bounded parse l seen [] ts h =
    subst (Bounded parse l seen 0) (ok_injective [] ts h) (tt, refl)
tracker_loop-Bounded parse l seen (t ∷ raw) ts h =
    let checked = bind_ok (check_tracker parse l t) _ ts h in
    elim (take_or_skip parse l seen t (any (str_eq t) seen) (tracker_loop parse l seen raw)
      (tracker_loop parse l (t ∷ seen) raw >>= prepend t) ts checked.2) [
        | inl p ↦ let r = tracker_loop-Bounded parse l seen raw ts p.0 in (r.0, ground (arith, r.1))
        | inr q ↦
            let rest = bind_ok (tracker_loop parse l (t ∷ seen) raw) (prepend t) ts q.0 in
            let r = tracker_loop-Bounded parse l (t ∷ seen) raw rest.0 rest.1 in
            subst (Bounded parse l seen (suc (length raw))) (ok_injective (t ∷ rest.0) ts rest.2)
              ((check_tracker-true parse l t checked.0 checked.1, q.1, r.0), ground (arith, r.1))
      ]

tracker_loop-Normal :
    (parse : UrlParse) (l : Limits) (seen ts : List GoString)
    → Normal parse l seen ts
    → tracker_loop parse l seen ts ≡ ok ts
unfolding tracker_loop Normal
tracker_loop-Normal parse l seen [] n = refl
tracker_loop-Normal parse l seen (t ∷ ts) n =
    rw (n.0, n.1, tracker_loop-Normal parse l (t ∷ seen) ts n.2)

pub normalize_trackers-normal :
    (parse : UrlParse) (l : Limits) (raw ts : List GoString)
    → normalize_trackers parse l raw ≡ ok ts
    → normalize_trackers parse l ts ≡ ok ts
unfolding normalize_trackers
normalize_trackers-normal parse l raw ts h =
    let few = else_ok (ltb l.max_tracker_count (length raw)) resource_limit _ ts h in
    let b = tracker_loop-Bounded parse l [] raw ts few.1 in
    let still_few : ltb l.max_tracker_count (length ts) ≡ false = ground (arith, few.0, b.1) in
    rw (still_few, tracker_loop-Normal parse l [] ts b.0)
