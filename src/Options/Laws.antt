-- ===== src/Options/Laws.antt =====
-- Which option of a call counts.
use courier_go.Base.{ℕ, Bool, false, List, [], ◌∷◌, ◌++◌, Option, none, some, ◌≡◌, refl, arith, All}
use courier_go.Options.{CallOption, CallOptions, no_options, apply, apply_all, compose_options}

abbrev pub qos_of : CallOption → Option ℕ
qos_of (CallOption.qos q) = some q
qos_of (CallOption.retained r) = none

abbrev pub retained_of : CallOption → Option Bool
retained_of (CallOption.qos q) = none
retained_of (CallOption.retained r) = some r

apply_all-append :
    (o : CallOptions) (xs ys : List CallOption)
    → apply_all o (xs ++ ys) ≡ apply_all (apply_all o xs) ys
unfolding apply_all
apply_all-append o [] ys = refl
apply_all-append o (x ∷ xs) ys = apply_all-append (apply x o) xs ys

qos-apply_all :
    (o : CallOptions) (ys : List CallOption)
    → All (λ y. qos_of y ≡ none) ys
    → (apply_all o ys).qos ≡ o.qos
unfolding apply_all
qos-apply_all o [] h = refl
qos-apply_all o (CallOption.qos q ∷ ys) h = ground arith
qos-apply_all o (CallOption.retained r ∷ ys) h = qos-apply_all (record o { retained = r }) ys h.1

retained-apply_all :
    (o : CallOptions) (ys : List CallOption)
    → All (λ y. retained_of y ≡ none) ys
    → (apply_all o ys).retained ≡ o.retained
unfolding apply_all
retained-apply_all o [] h = refl
retained-apply_all o (CallOption.qos q ∷ ys) h = retained-apply_all (record o { qos = q }) ys h.1
retained-apply_all o (CallOption.retained r ∷ ys) h = ground arith

-- With a QOSLevel among the options, the last one is the level of the call, whatever Retained
-- options stand after it; with none among them the level is 0.
pub compose_options_qos :
    (xs ys : List CallOption) (q : ℕ)
    → All (λ y. qos_of y ≡ none) ys
    → ((compose_options (xs ++ CallOption.qos q ∷ ys)).qos ≡ q) × ((compose_options ys).qos ≡ 0)
unfolding compose_options
compose_options_qos xs ys q h = (
  rw (apply_all-append no_options xs (CallOption.qos q ∷ ys), apply_all)
      (qos-apply_all (record (apply_all no_options xs) { qos = q }) ys h),
  qos-apply_all no_options ys h,
)

-- With a Retained among the options, the last one is the flag of the call, whatever QOSLevel
-- options stand after it; with none among them the flag is false.
pub compose_options_retained :
    (xs ys : List CallOption) (r : Bool)
    → All (λ y. retained_of y ≡ none) ys
    → ((compose_options (xs ++ CallOption.retained r ∷ ys)).retained ≡ r)
      × ((compose_options ys).retained ≡ false)
unfolding compose_options
compose_options_retained xs ys r h = (
  rw (apply_all-append no_options xs (CallOption.retained r ∷ ys), apply_all)
      (retained-apply_all (record (apply_all no_options xs) { retained = r }) ys h),
  retained-apply_all no_options ys h,
)
