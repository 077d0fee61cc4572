-- ===== src/Otel/Setup/Returned.antt =====
-- New returns when its meter refuses nothing.
use courier_go.Base.{ℕ, String, Option, none, some, List, [], ◌∷◌, Bool-cases, inl, inr, ◌≡◌, refl}
use courier_go.Errors.{Error}
use courier_go.Otel.{TracePath, TracePaths, match, Recorder}
use courier_go.Otel.Setup.{
  Meter, Made, made, unless_error, ◌>>=◌, flow, new_recorder, no_recorders, record_path,
  record_paths, init_info_handler, new_otel,
}
use courier_go.Otel.Settings.{
  Boundaries, boundaries_at, OtelOption, Globals, default_options, apply_otels,
}

-- The meter refuses nothing.
pub record IsWilling (m : Meter) : Type 0 where
  pub counters : (name : String) → m.counter name ≡ none
  pub histograms : (name : String) (boundaries : List ℕ) → m.histogram name boundaries ≡ none
  pub up_down_counters : (name : String) → m.up_down_counter name ≡ none
  pub callbacks : (name : String) → m.register_callback name ≡ none

abbrev pub Returns : {A : Type 0} → Made A → Type 0
Returns {A} m = (a : A) × (m ≡ made a)

>>=-Returns :
    {A B : Type 0} (m : Made A) (f : A → Made B)
    → Returns m
    → ((a : A) → Returns (f a))
    → Returns (m >>= f)
>>=-Returns m f (a, h) later = let (b, k) = later a in (b, rw (h, k) refl)

unless_error-Returns :
    {A : Type 0} (o : Option Error) (a : A) → o ≡ none → Returns (unless_error o a)
unless_error-Returns o a h = (a, rw h refl)

new_recorder-Returns :
    (m : Meter) (name : String) (bs : List ℕ) → IsWilling m → Returns (new_recorder m name bs)
unfolding new_recorder
new_recorder-Returns m name bs w =
    >>=-Returns _ _ (unless_error-Returns _ _ (w.counters _)) (λ attempts.
      >>=-Returns _ _ (unless_error-Returns _ _ (w.counters _)) (λ failures.
        >>=-Returns _ _ (unless_error-Returns _ _ (w.histograms _ bs)) (λ latency. (_, refl))))

record_path-Returns :
    (m : Meter) (tp : TracePaths) (bs : Boundaries) (p : TracePath) (r : Recorder)
    → IsWilling m
    → Returns (record_path m tp bs p r)
unfolding record_path
record_path-Returns m tp bs p r w = elim (Bool-cases (match tp p)) [
  | inl traced ↦
      rw traced
        (>>=-Returns _ _ (new_recorder-Returns m (flow p) (boundaries_at bs p) w) (λ rs. (_, refl)))
  | inr off ↦ rw off (r, refl)
]

record_paths-Returns :
    (m : Meter) (tp : TracePaths) (bs : Boundaries) (ps : List TracePath) (r : Recorder)
    → IsWilling m
    → Returns (record_paths m tp bs ps r)
unfolding record_paths
record_paths-Returns m tp bs [] r w = (r, refl)
record_paths-Returns m tp bs (p ∷ ps) r w =
    >>=-Returns _ _ (record_path-Returns m tp bs p r w) (λ r'. record_paths-Returns m tp bs ps r' w)

init_info_handler-Returns :
    (m : Meter) (id : String) (unregister : Option Error) (h : Option ℕ)
    → IsWilling m
    → Returns (init_info_handler m id unregister h)
unfolding init_info_handler
init_info_handler-Returns m id unregister none w = (none, refl)
init_info_handler-Returns m id unregister (some h) w =
    >>=-Returns _ _ (unless_error-Returns _ _ (w.up_down_counters _))
      (λ observable. unless_error-Returns _ _ (w.callbacks observable))

pub new_otel-Returns :
    (g : Globals) (m : Meter) (paths : List TracePath) (id : String) (unregister : Option Error)
    (service : String) (opts : List OtelOption)
    → IsWilling m
    → Returns (new_otel g m paths id unregister service opts).0
unfolding new_otel
new_otel-Returns g m paths id unregister service opts w =
    let om = apply_otels opts (default_options g, g.def_bucket_boundaries) in
    >>=-Returns _ _ (record_paths-Returns m om.0.trace_paths om.1 paths no_recorders w) (λ rc.
      >>=-Returns _ _ (init_info_handler-Returns m id unregister om.0.info_handler w)
        (λ registration. (_, refl)))
