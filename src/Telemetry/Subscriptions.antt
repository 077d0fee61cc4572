-- ===== src/Telemetry/Subscriptions.antt =====
-- The levels that a client shows for its subscriptions.
use courier_go.Base.{
  ℕ, String, true, Option, none, some, List, [], ◌∷◌, ◌≡◌, refl, arith, str_eq, eq_iff, insert,
  lookup, lookup-insert, lookup_absent, keys, contains, HasUniqueKeys, if◌then◌else◌, inl, inr, ◌⊎◌,
}
use courier_go.Libs.{Libs}
use courier_go.Options.{CallOption, CallOptions, no_options, apply_all, compose_options}
use courier_go.Client.{SubscriptionMeta, Client}
use courier_go.Telemetry.{read_levels, default_level, read_from, read_subscription_meta}

-- The last level among some options, or another one.
last_level : List CallOption → Option ℕ → Option ℕ
last_level [] q = q
last_level (CallOption.qos q ∷ opts) p = last_level opts (some q)
last_level (CallOption.retained r ∷ opts) p = last_level opts p

lookup-read_levels :
    (topic : String) (opts : List CallOption) (subs : List (String × ℕ)) (j : String)
    → lookup j (read_levels topic opts subs)
      ≡ (if str_eq topic j then last_level opts (lookup topic subs) else lookup j subs)
unfolding read_levels last_level
lookup-read_levels topic [] subs j = ground (arith, eq_iff topic j)
lookup-read_levels topic (CallOption.qos q ∷ opts) subs j = ground (
  arith,
  lookup-read_levels topic opts (insert topic q subs) j,
  lookup-insert topic j q subs,
  lookup-insert topic topic q subs,
  eq_iff topic topic,
)
lookup-read_levels topic (CallOption.retained r ∷ opts) subs j =
    lookup-read_levels topic opts subs j

level-last_level :
    (opts : List CallOption) (o : CallOptions)
    → last_level opts (some o.qos) ≡ some (apply_all o opts).qos
unfolding last_level apply_all
level-last_level [] o = refl
level-last_level (CallOption.qos q ∷ opts) o = level-last_level opts (record o { qos = q })
level-last_level (CallOption.retained r ∷ opts) o =
    level-last_level opts (record o { retained = r })

level-none :
    (opts : List CallOption) (o : CallOptions)
    → ((last_level opts none ≡ none) × ((apply_all o opts).qos ≡ o.qos))
      ⊎ (last_level opts none ≡ some (apply_all o opts).qos)
unfolding last_level apply_all
level-none [] o = inl (refl, refl)
level-none (CallOption.qos q ∷ opts) o = inr (level-last_level opts (record o { qos = q }))
level-none (CallOption.retained r ∷ opts) o = level-none opts (record o { retained = r })

-- One topic that has no level yet.
lookup-topic :
    (topic : String) (opts : List CallOption) (subs : List (String × ℕ)) (j : String)
    → lookup topic subs ≡ none
    → lookup j (default_level topic (read_levels topic opts subs))
      ≡ (if str_eq topic j then some (compose_options opts).qos else lookup j subs)
unfolding default_level compose_options
lookup-topic topic opts subs j fresh = ground (
  arith,
  fresh,
  level-none opts no_options,
  lookup-read_levels topic opts subs topic,
  lookup-read_levels topic opts subs j,
  lookup-insert topic j 0 (read_levels topic opts subs),
  eq_iff topic topic,
)

abbrev pub shown : Option SubscriptionMeta → Option ℕ → Option ℕ
shown none old = old
shown (some m) old = some (compose_options m.options).qos

lookup-read_from :
    (m : List (String × SubscriptionMeta)) (subs : List (String × ℕ)) (j : String)
    → HasUniqueKeys m
    → ((t : String) → contains (keys m) t ≡ true → lookup t subs ≡ none)
    → lookup j (read_from m subs) ≡ shown (lookup j m) (lookup j subs)
unfolding read_from
lookup-read_from [] subs j unique fresh = refl
lookup-read_from ((topic, sub) ∷ rest) subs j (absent, unique) fresh =
    let next = default_level topic (read_levels topic sub.options subs) in
    let at_topic = fresh topic (ground (arith, eq_iff topic topic)) in
    let later : (t : String) → contains (keys rest) t ≡ true → lookup t next ≡ none = λ t h.
      ground (arith, lookup-topic topic sub.options subs t at_topic, eq_iff topic t, fresh t) in
    ground (
      arith,
      lookup-read_from rest next j unique later,
      lookup-topic topic sub.options subs j at_topic,
      lookup_absent topic rest absent,
      eq_iff topic j,
    )

module _ ⦃libs : Libs⦄ where
  -- For each topic that a client keeps, its information shows the level that the topic was
  -- subscribed with, as composeOptions reads it from the options, 0 without a QOSLevel; it shows no
  -- other topic.
  pub lookup-read_subscription_meta :
      (c : Client) (topic : String)
      → HasUniqueKeys c.subscriptions
      → lookup topic (read_subscription_meta c) ≡ shown (lookup topic c.subscriptions) none
  unfolding read_subscription_meta
  lookup-read_subscription_meta c topic unique =
      lookup-read_from c.subscriptions [] topic unique (λ t h. refl)
