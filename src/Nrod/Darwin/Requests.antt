-- ===== src/Nrod/Darwin/Requests.antt =====
-- When `process_ts` of tspl-nrod/src/darwin.rs can make updates of the locations of a message.
use trainsplorer.Prelude.{
  ℕ, String, ◌≡◌, refl, ap, ◌∙◌, Bool, true, false, ◌&&◌, Option, none, some, List, [], ◌∷◌,
}
use trainsplorer.Prelude.Maps.{is_some}
use trainsplorer.Nrod.Darwin.{
  TsTimeData, PlatformData, TsLocation, TsUpdate, Clock, midnight, or_else, push_update, ◌>>=◌,
  push_location, push_locations, flatten_locations,
}

-- A movement that is reported has a planned time.
abbrev pub planned : Option TsTimeData → Option ℕ → Bool
planned none time = true
planned (some tstd) time = is_some time

-- A location whose reported movements all have planned times: working times or, but for a pass,
-- public ones.
abbrev pub is_planned : TsLocation → Bool
is_planned loc =
    planned loc.arr (or_else loc.timings.wta loc.timings.pta)
    && (planned loc.dep (or_else loc.timings.wtd loc.timings.ptd)
        && planned loc.pass loc.timings.wtp)

unfoldable pub all_planned : List TsLocation → Bool
all_planned [] = true
all_planned (loc ∷ locs) = is_planned loc && all_planned locs

is_some->>= {ℓ κ} :
    {A : Type ℓ} {B : Type κ} (m : Option A) (f : A → Option B) (b : Bool)
    → ((a : A) → is_some (f a) ≡ b)
    → is_some (m >>= f) ≡ (is_some m && b)
is_some->>= none f b h = refl
is_some->>= (some a) f b h = h a

push_update-is_some :
    (s : Clock × List TsUpdate) (o : Option TsTimeData) (time : Option ℕ) (tiploc : String)
    (action : ℕ) (platform : Option PlatformData)
    → is_some (push_update s o time tiploc action platform) ≡ planned o time
unfolding push_update
push_update-is_some s none time tiploc action platform = refl
push_update-is_some s (some tstd) none tiploc action platform = refl
push_update-is_some s (some tstd) (some t) tiploc action platform = refl

push_location-is_some :
    (s : Clock × List TsUpdate) (loc : TsLocation) → is_some (push_location s loc) ≡ is_planned loc
unfolding push_location
push_location-is_some s loc =
    is_some->>= (push_update s loc.arr _ loc.tiploc 0 loc.plat) _ _ (λ s1.
      is_some->>= (push_update s1 loc.dep _ loc.tiploc 1 loc.plat) _ _
        (λ s2. push_update-is_some s2 loc.pass loc.timings.wtp loc.tiploc 2 none)
      ∙ ap (λ b. b && planned loc.pass loc.timings.wtp)
          (push_update-is_some s1 loc.dep _ loc.tiploc 1 loc.plat))
    ∙ ap
        (λ b.
          b
          && (planned loc.dep (or_else loc.timings.wtd loc.timings.ptd)
              && planned loc.pass loc.timings.wtp))
        (push_update-is_some s loc.arr _ loc.tiploc 0 loc.plat)

push_locations-is_some :
    (s : Clock × List TsUpdate) (locs : List TsLocation)
    → is_some (push_locations s locs) ≡ all_planned locs
unfolding push_locations all_planned
push_locations-is_some s [] = refl
push_locations-is_some s (loc ∷ locs) =
    is_some->>= (push_location s loc) (λ s'. push_locations s' locs) (all_planned locs)
      (λ s'. push_locations-is_some s' locs)
    ∙ ap (λ b. b && all_planned locs) (push_location-is_some s loc)

-- The locations of a train status are turned into updates, and not into an error, exactly if every
-- movement that they report has a planned time. The requests that follow may still fail.
pub flatten_locations-is_some :
    (locs : List TsLocation) → is_some (flatten_locations locs) ≡ all_planned locs
unfolding flatten_locations
flatten_locations-is_some locs =
    is_some->>= (push_locations (midnight, []) locs) _ true (λ s. refl)
    ∙ and_true (is_some (push_locations (midnight, []) locs))
    ∙ push_locations-is_some (midnight, []) locs
  where
    and_true : (b : Bool) → (b && true) ≡ b
    and_true true = refl
    and_true false = refl
