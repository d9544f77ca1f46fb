-- ===== src/Serving/Passes.antt =====
-- pipelines/router/models.py: the ways through the models of a pipeline.
use mathlib.Core.Path.{subst}
use ipa_arman.Prelude.{
  ◌∙◌, String, ◌≡◌, refl, sym, ap, ◌↔◌, inl, inr, Bool, true, false, none, some, List, [], ◌∷◌,
  ◌++◌, append-nil, str_eq, eq_iff, join, Bool-cases, ok-false≢true, Outcome, ok, >>=-eq-ok,
  ok-injective, Runtime,
}
use ipa_arman.Serving.{Tensor, Literals}
use ipa_arman.Serving.Names.{Replaced, without_queue_iff}
use ipa_arman.Serving.Router.{
  Settings, violation, with_arrival, drop_reply, without_queue, is_late, Progress, early, finished,
  route,
}

module _ {F : Type 0} ⦃r : Runtime F⦄ (lits : Literals F) (settings : Settings F)
    (infer : String → Tensor → Outcome Tensor) (elapsed : List String → F)
    (serving arrival : F) where
  -- The section's functions at its arguments.
  abbrev pub Way : Type 0
  Way = Progress lits settings infer elapsed serving

  abbrev pub routed : List String → Tensor → Outcome Way
  routed models t = route lits settings infer elapsed serving arrival models t

  -- The limit is exceeded with models still to come.
  abbrev pub late : List String → Bool
  late [] = false
  late (m ∷ models) = r.le settings.drop_limit (r.sub (elapsed (m ∷ models)) arrival)

  is_late-late :
      (models : List String)
      → is_late lits settings infer elapsed serving arrival models ≡ late models
  unfolding is_late
  is_late-late [] = refl
  is_late-late (m ∷ models) = refl

  -- What goes to the next model: the reply, with the arrival at the router as text.
  abbrev pub sent : Tensor → Tensor
  sent reply = record reply {
    parameters = record {
      pipeline_arrival = some (lits.str_clock arrival);
      times = reply.parameters.times;
    };
  }

  -- The reply to a request that is late behind a model of this name.
  abbrev pub dropped_after : String → Tensor
  dropped_after name = record {
    name = "drop-limit-violation";
    batch = 1;
    data_ = join "early exit, drop limit exceeded after " name ∷ [];
    parameters = record { pipeline_arrival = none; times = none };
  }

  abbrev pub Refuses : Tensor → Type 0
  Refuses reply = reply.name ≡ "drop-limit-violation"

  -- The models `before` answer in turn, none with a violation and none too late for those that come
  -- `after`; `t` goes in and `u` comes out.
  abbrev pub Through : List String → List String → Tensor → Tensor → Type 0
  Through [] after t u = u ≡ t
  Through (m ∷ before) after t u =
      (reply : Tensor) × (infer m t ≡ ok reply)
      × ¬ Refuses reply
      × (late (before ++ after) ≡ false)
      × Through before after (sent reply) u

  -- The way of a request: out behind the last model, or up to a model `m` whose reply is a violation,
  -- or is late with models still to come, which the message names without `queue-`.
  pub data Ends (models : List String) (t : Tensor) (way : Way) : Type 0 where
    served : (u : Tensor) → Through models [] t u → way ≡ finished u → Ends models t way
    refused :
        (before after : List String) (m : String) (u reply : Tensor)
        → models ≡ before ++ (m ∷ after)
        → Through before (m ∷ after) t u
        → infer m u ≡ ok reply
        → Refuses reply
        → way ≡ early reply
        → Ends models t way
    dropped :
        (before after : List String) (m name : String) (u reply : Tensor)
        → models ≡ before ++ (m ∷ after)
        → Through before (m ∷ after) t u
        → infer m u ≡ ok reply
        → ¬ Refuses reply
        → late after ≡ true
        → Replaced m name
        → way ≡ early (dropped_after name)
        → Ends models t way

  -- The tests and the replies of the router.
  violation-Refuses : (reply : Tensor) → (str_eq reply.name violation ≡ true) ↔ Refuses reply
  unfolding violation
  violation-Refuses reply = eq_iff reply.name "drop-limit-violation"

  not-Refuses : (reply : Tensor) → str_eq reply.name violation ≡ false → ¬ Refuses reply
  not-Refuses reply h bad = ok-false≢true (ap ok (sym h ∙ (violation-Refuses reply).1 bad))

  not-violation : (reply : Tensor) → ¬ Refuses reply → str_eq reply.name violation ≡ false
  not-violation reply good = elim (Bool-cases (str_eq reply.name violation)) [
    | inl bad ↦ absurd (good ((violation-Refuses reply).0 bad))
    | inr h ↦ h
  ]

  with_arrival-sent : (reply : Tensor) → with_arrival (lits.str_clock arrival) reply ≡ sent reply
  unfolding with_arrival
  with_arrival-sent reply = refl

  drop_reply-dropped_after :
      (m name : String)
      → Replaced m name
      → drop_reply (join "early exit, drop limit exceeded after " (without_queue 0 m))
        ≡ dropped_after name
  unfolding drop_reply violation
  drop_reply-dropped_after m name h = ap dropped_after ((without_queue_iff m name).1 h)

  -- A model that answers before the rest of the way.
  Ends-cons :
      (m : String) (models : List String) (t reply : Tensor) (way : Way)
      → infer m t ≡ ok reply
      → ¬ Refuses reply
      → late models ≡ false
      → Ends models (sent reply) way
      → Ends (m ∷ models) t way
  Ends-cons m models t reply way e good quick (served u through out) =
      served u (reply, e, good, rw (append-nil models) quick, through) out
  Ends-cons m models t reply way e good quick
        (refused before after n u r' split through f bad out) =
      refused (m ∷ before) after n u r' (ap (λ l. m ∷ l) split)
        (reply, e, good, rw split at quick, through) f bad out
  Ends-cons m models t reply way e good quick
        (dropped before after n name u r' split through f ok' slow named out) =
      dropped (m ∷ before) after n name u r' (ap (λ l. m ∷ l) split)
        (reply, e, good, rw split at quick, through) f ok' slow named out

  route-Ends :
      (models : List String) (t : Tensor) {way : Way} → routed models t ≡ ok way → Ends models t way
  unfolding route
  route-Ends [] t h = served t refl (sym (ok-injective h))
  route-Ends (m ∷ models) t {way} h =
      let (reply, e, h1) = >>=-eq-ok (infer m t) _ h in
      elim (Bool-cases (str_eq reply.name violation)) [
        | inl bad ↦
            refused [] models m t reply refl refl e ((violation-Refuses reply).0 bad)
              (sym (ok-injective (rw bad at h1)))
        | inr good ↦ elim (Bool-cases (late models)) [
          | inl slow ↦
              dropped [] models m (without_queue 0 m) t reply refl refl e (not-Refuses reply good)
                slow ((without_queue_iff m (without_queue 0 m)).0 refl)
                (sym (ok-injective (rw (good, is_late-late models ∙ slow) at h1))
                  ∙ ap (λ w. early w)
                      (drop_reply-dropped_after m (without_queue 0 m)
                        ((without_queue_iff m (without_queue 0 m)).0 refl)))
          | inr quick ↦ Ends-cons m models t reply way e (not-Refuses reply good) quick (
              route-Ends models (sent reply) (
                subst (λ w. routed models w ≡ ok way) (with_arrival-sent reply)
                  (rw (good, is_late-late models ∙ quick) at h1)))
        ]
      ]

  -- A model that lets the request through leaves the rest of the way.
  routed-passed :
      (m : String) (models : List String) (t reply : Tensor)
      → infer m t ≡ ok reply
      → ¬ Refuses reply
      → late models ≡ false
      → routed (m ∷ models) t ≡ routed models (sent reply)
  unfolding route
  routed-passed m models t reply e good quick =
      rw (e, not-violation reply good, is_late-late models ∙ quick)
        (ap (λ w. routed models w) (with_arrival-sent reply))

  routed-Through :
      (before after : List String) (t u : Tensor)
      → Through before after t u
      → routed (before ++ after) t ≡ routed after u
  routed-Through [] after t u same = ap (λ w. routed after w) (sym same)
  routed-Through (m ∷ before) after t u (reply, e, good, quick, through) =
      routed-passed m (before ++ after) t reply e good quick
      ∙ routed-Through before after (sent reply) u through

  Ends-route :
      (models : List String) (t : Tensor) (way : Way) → Ends models t way → routed models t ≡ ok way
  unfolding route
  Ends-route models t way (served u through out) =
      ap (λ l. routed l t) (sym (append-nil models))
      ∙ routed-Through models [] t u through
      ∙ ap ok (sym out)
  Ends-route models t way (refused before after m u reply split through e bad out) =
      ap (λ l. routed l t) split
      ∙ routed-Through before (m ∷ after) t u through
      ∙ rw (e, (violation-Refuses reply).1 bad) (ap ok (sym out))
  Ends-route models t way
        (dropped before after m name u reply split through e good slow named out) =
      ap (λ l. routed l t) split
      ∙ routed-Through before (m ∷ after) t u through
      ∙ rw (e, not-violation reply good, is_late-late after ∙ slow)
          (ap (λ d. ok (early d)) (drop_reply-dropped_after m name named) ∙ ap ok (sym out))

  -- The loop of the router returns a way just if it is that of the request: each model gets the reply of
  -- the one before, with the arrival at the router as text, up to the first that reports a violation,
  -- whose reply is returned, or the first that is followed by another and behind which the limit is
  -- reached, for which the message that names it, without `queue-`, is returned; without either, the
  -- way leads out behind the last model with its reply, which has the arrival as well.
  pub route_iff :
      (models : List String) (t : Tensor) (way : Way)
      → (routed models t ≡ ok way) ↔ Ends models t way
  route_iff models t way = ((λ h. route-Ends models t h), Ends-route models t way)

  -- Where every model answers without a violation and the limit is never reached, the request passes all
  -- models in order, each with the reply of the one before, and comes out behind the last.
  pub route-finishes :
      ((m : String) (t : Tensor) → (reply : Tensor) × (infer m t ≡ ok reply) × ¬ Refuses reply)
      → ((models : List String) → late models ≡ false)
      → (models : List String) (t : Tensor)
      → (output : Tensor) × (routed models t ≡ ok (finished output)) × Through models [] t output
  route-finishes answers in_time models t =
      let (output, through) = all_through models t in
      (output, Ends-route models t (finished output) (served output through refl), through)
    where
      all_through :
          (models : List String) (t : Tensor) → (output : Tensor) × Through models [] t output
      all_through [] t = (t, refl)
      all_through (m ∷ models) t =
          let (reply, e, good) = answers m t in
          let (output, through) = all_through models (sent reply) in
          (output, (reply, e, good, in_time (models ++ []), through))
