-- ===== src/Otel/Setup/Recording.antt =====
-- What New records: the paths that its options leave, with the boundaries that they set.
use courier_go.Base.{
  String, Bool, true, false, not, ◌&&◌, ◌||◌, Option, none, some, List, [], ◌∷◌, concat, subst,
  Bool-cases, inl, inr, if◌then◌else◌, ◌≡◌, refl, ap, ◌∙◌, arith,
}
use courier_go.Errors.{Error}
use courier_go.Otel.{
  TracePath, trace_publisher, trace_subscriber, trace_unsubscriber, trace_callback, TracePaths,
  match, Recorders, Recorder, recorders_at, Otel,
}
use courier_go.Otel.Setup.{
  Meter, Made, made, panics, ◌>>=◌, flow, metric_name, new_recorder, set_recorders, no_recorders,
  record_path, record_paths, init_info_handler, new_otel,
}
use courier_go.Otel.Settings.{
  Boundaries, boundaries_at, OtelOption, Globals, default_options, apply_otels,
}
use courier_go.Otel.Settings.Disabled.{same_path, disables, match-apply_otels}
use courier_go.Otel.Setup.Returned.{IsWilling, new_otel-Returns}

abbrev pub visits : List TracePath → TracePath → Bool
visits [] path = false
visits (p ∷ ps) path = same_path p path || visits ps path

-- The instruments of a path.
abbrev pub recorders_for : Boundaries → TracePath → Recorders
recorders_for bs path = record {
  attempts = concat "courier." (concat (flow path) ".attempts");
  failures = concat "courier." (concat (flow path) ".failures");
  latency = concat "courier." (concat (flow path) ".latency");
  boundaries = boundaries_at bs path;
}

>>=-eq-made :
    {A B : Type 0} (m : Made A) (f : A → Made B) {b : B}
    → (m >>= f) ≡ made b
    → (a : A) × (m ≡ made a) × (f a ≡ made b)
>>=-eq-made (made a) f h = (a, refl, h)
>>=-eq-made (panics e) f h = cc

new_recorder-eq-made :
    (m : Meter) (bs : Boundaries) (path : TracePath) (rs : Recorders)
    → new_recorder m (flow path) (boundaries_at bs path) ≡ made rs
    → rs ≡ recorders_for bs path
unfolding new_recorder metric_name
new_recorder-eq-made m bs path rs h = ground (arith, h)

recorders_at-set_recorders :
    (p path : TracePath) (rs : Recorders) (r : Recorder)
    → recorders_at (set_recorders p rs r) path
      ≡ (if same_path p path then some rs else recorders_at r path)
unfolding recorders_at set_recorders
recorders_at-set_recorders trace_publisher path rs r = ground arith
recorders_at-set_recorders trace_subscriber path rs r = ground arith
recorders_at-set_recorders trace_unsubscriber path rs r = ground arith
recorders_at-set_recorders trace_callback path rs r = ground arith

-- The recorders of a path after a round of the loop for another one, or for it.
recorders_at-record_path :
    (m : Meter) (tp : TracePaths) (bs : Boundaries) (p path : TracePath) (r r' : Recorder)
    → record_path m tp bs p r ≡ made r'
    → recorders_at r' path
      ≡ (if match tp p && same_path p path then some (recorders_for bs p) else recorders_at r path)
unfolding record_path
recorders_at-record_path m tp bs p path r r' h = elim (Bool-cases (match tp p)) [
  | inl traced ↦
      let (rs, made_rs, set) =
        >>=-eq-made (new_recorder m (flow p) (boundaries_at bs p))
          (λ rs. made (set_recorders p rs r)) (rw (traced, record_path) at h) in
      let same = new_recorder-eq-made m bs p rs made_rs in
      ground (arith, traced, set, same, recorders_at-set_recorders p path rs r)
  | inr off ↦ ground (arith, off, rw (off, record_path) at h)
]

same_path-eq : (p q : TracePath) → same_path p q ≡ true → p ≡ q
same_path-eq p q h = ground (arith, h)

-- The recorders of a path, traced or not.
abbrev pub recorders_if : Bool → Boundaries → TracePath → Option Recorders → Option Recorders
recorders_if b bs path old = if b then some (recorders_for bs path) else old

at_path :
    (m : Meter) (tp : TracePaths) (bs : Boundaries) (p path : TracePath) (r r' : Recorder)
    → record_path m tp bs p r ≡ made r'
    → recorders_at r' path
      ≡ recorders_if (match tp path && same_path p path) bs path (recorders_at r path)
at_path m tp bs p path r r' h = elim (Bool-cases (same_path p path)) [
  | inl same ↦
      subst
        (λ q.
          recorders_at r' q ≡ recorders_if (match tp q && same_path p q) bs q (recorders_at r q))
        (same_path-eq p path same) (recorders_at-record_path m tp bs p p r r' h)
  | inr other ↦ recorders_at-record_path m tp bs p path r r' h ∙ ground (arith, other)
]

recorders_at-record_paths :
    (m : Meter) (tp : TracePaths) (bs : Boundaries) (ps : List TracePath) (path : TracePath)
    (r r' : Recorder)
    → record_paths m tp bs ps r ≡ made r'
    → recorders_at r' path
      ≡ recorders_if (match tp path && visits ps path) bs path (recorders_at r path)
unfolding record_paths
recorders_at-record_paths m tp bs [] path r r' h = ground (arith, h)
recorders_at-record_paths m tp bs (p ∷ ps) path r r' h =
    let (r1, first, later) = >>=-eq-made (record_path m tp bs p r) (record_paths m tp bs ps) h in
    ground (
      arith,
      recorders_at-record_paths m tp bs ps path r1 r' later,
      at_path m tp bs p path r r1 first,
    )

none_yet : (path : TracePath) → recorders_at no_recorders path ≡ none
unfolding recorders_at
none_yet path = ground arith

all_paths :
    (path : TracePath)
    → match
        (record { publisher = true; subscriber = true; unsubscriber = true; callback = true })
        path
      ≡ true
unfolding match
all_paths path = ground arith

-- An OTel that New returned, with the options and the boundaries that it took.
new_otel-eq-made :
    (g : Globals) (m : Meter) (paths : List TracePath) (id : String) (unregister : Option Error)
    (service : String) (opts : List OtelOption) (t : Otel)
    → (new_otel g m paths id unregister service opts).0 ≡ made t
    → (record_paths m t.trace_paths
          (new_otel g m paths id unregister service opts).1
          paths
          no_recorders
        ≡ made t.rc)
      × (t.trace_paths
          ≡ (apply_otels opts (default_options g, g.def_bucket_boundaries)).0.trace_paths)
unfolding new_otel
new_otel-eq-made g m paths id unregister service opts t h =
    let om = apply_otels opts (default_options g, g.def_bucket_boundaries) in
    let (rc, made_rc, rest) =
      >>=-eq-made (record_paths m om.0.trace_paths om.1 paths no_recorders) _ h in
    let (registration, made_registration, last) =
      >>=-eq-made (init_info_handler m id unregister om.0.info_handler) _ rest in
    (ground (arith, made_rc, last), ground (arith, last))

-- What an OTel that New returned traces and records.
pub new_otel-made_records :
    (g : Globals) (m : Meter) (paths : List TracePath) (id : String) (unregister : Option Error)
    (service : String) (opts : List OtelOption) (t : Otel) (path : TracePath)
    → (new_otel g m paths id unregister service opts).0 ≡ made t
    → visits paths path ≡ true
    → (match t.trace_paths path ≡ not (disables opts path))
      × (recorders_at t.rc path ≡ (
          if disables opts path
          then none
          else some (recorders_for (new_otel g m paths id unregister service opts).1 path)))
unfolding default_options
new_otel-made_records g m paths id unregister service opts t path h visited =
    let (recorded, tp) = new_otel-eq-made g m paths id unregister service opts t h in
    let traced : match t.trace_paths path ≡ not (disables opts path) =
      ap (λ p. match p path) tp
      ∙ match-apply_otels opts (default_options g) g.def_bucket_boundaries path
      ∙ ground (arith, all_paths path) in
    let rs =
      recorders_at-record_paths m t.trace_paths (new_otel g m paths id unregister service opts).1
        paths path no_recorders t.rc recorded in
    (traced, ground (arith, rs, traced, visited, none_yet path))

-- With a meter that refuses nothing, New returns, and records exactly the paths that no option
-- disables: the OTel traces a path, and has recorders for it, exactly if none of the options
-- disables it; these are the counters and the histogram with the names of the flow and the shared
-- boundaries as the options have left them. `paths` is the order in which the flows are visited,
-- with this path among them.
pub new_otel-records :
    (g : Globals) (m : Meter) (paths : List TracePath) (id : String) (unregister : Option Error)
    (service : String) (opts : List OtelOption) (path : TracePath)
    → IsWilling m
    → visits paths path ≡ true
    → (t : Otel) × ((new_otel g m paths id unregister service opts).0 ≡ made t)
      × (match t.trace_paths path ≡ not (disables opts path))
      × (recorders_at t.rc path ≡ (
          if disables opts path
          then none
          else some (recorders_for (new_otel g m paths id unregister service opts).1 path)))
new_otel-records g m paths id unregister service opts path w visited =
    let (t, returned) = new_otel-Returns g m paths id unregister service opts w in
    let (traced, recorded) =
      new_otel-made_records g m paths id unregister service opts t path returned visited in
    (t, returned, traced, recorded)
