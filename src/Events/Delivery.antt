-- ===== src/Events/Delivery.antt =====
-- What `EventBus.emit` of src/ttasks/_events.py delivers and records.
use ttasks.Common.{
  ℕ, zero, suc, ◌≡◌, ◌⊎◌, inl, inr, refl, sym, ◌∙◌, ap, Bool, true, false, Option, none, some, List,
  [], ◌∷◌, ◌++◌, map, append-nil, append_assoc, arith,
}
use ttasks.Errors.{Exn}
use ttasks.Events.{
  TaskEvent, EventBus, React, BusCall, join, leave, emits, unsubscribe, call_bus, deliver,
  deliver_all, emit,
}

-- The first list stands in the second, in order, with other elements in between.
abbrev pub Sublist : {A : Type 0} → List A → List A → Type 0
Sublist [] ys = Unit {0}
Sublist {A} (x ∷ xs) [] = ⊥
Sublist (x ∷ xs) (y ∷ ys) = ((x ≡ y) × Sublist xs ys) ⊎ Sublist (x ∷ xs) ys

module _ {A : Type 0} where
  Sublist-skip : (xs ys zs : List A) → Sublist xs zs → Sublist xs (ys ++ zs)
  Sublist-skip [] ys zs h = tt
  Sublist-skip (x ∷ xs) [] zs h = h
  Sublist-skip (x ∷ xs) (y ∷ ys) zs h = inr (Sublist-skip (x ∷ xs) ys zs h)

  Sublist-append :
      (xs ys xs' ys' : List A) → Sublist xs ys → Sublist xs' ys' → Sublist (xs ++ xs') (ys ++ ys')
  Sublist-append [] ys xs' ys' h k = Sublist-skip xs' ys ys' k
  Sublist-append (x ∷ xs) [] xs' ys' h k = absurd h
  Sublist-append (x ∷ xs) (y ∷ ys) xs' ys' (inl (e, h)) k =
      inl (e, Sublist-append xs ys xs' ys' h k)
  Sublist-append (x ∷ xs) (y ∷ ys) xs' ys' (inr h) k = inr (Sublist-append (x ∷ xs) ys xs' ys' h k)

  Sublist-refl : (xs : List A) → Sublist xs xs
  Sublist-refl [] = tt
  Sublist-refl (x ∷ xs) = inl (refl, Sublist-refl xs)

-- The histories of the bus are extended, at least by these deliveries and these exceptions.
pub record Grew (b c : EventBus) (ds : List (ℕ × TaskEvent)) (es : List Exn) : Type 0 where
  pub delivered : List (ℕ × TaskEvent)
  pub errors : List Exn
  pub adds_delivered : c.delivered ≡ b.delivered ++ delivered
  pub adds_errors : c.errors ≡ b.errors ++ errors
  pub has_delivered : Sublist ds delivered
  pub has_errors : Sublist es errors

same_histories : (b c : EventBus) → c.delivered ≡ b.delivered → c.errors ≡ b.errors → Grew b c [] []
same_histories b c h k = record {
  delivered = [];
  errors = [];
  adds_delivered = h ∙ sym (append-nil b.delivered);
  adds_errors = k ∙ sym (append-nil b.errors);
  has_delivered = tt;
  has_errors = tt;
}

Grew-trans :
    (b c d : EventBus) (ds ds' : List (ℕ × TaskEvent)) (es es' : List Exn)
    → Grew b c ds es
    → Grew c d ds' es'
    → Grew b d (ds ++ ds') (es ++ es')
Grew-trans b c d ds ds' es es' g h = record {
  delivered = g.delivered ++ h.delivered;
  errors = g.errors ++ h.errors;
  adds_delivered =
      cc (h.adds_delivered, g.adds_delivered, append_assoc b.delivered g.delivered h.delivered);
  adds_errors = cc (h.adds_errors, g.adds_errors, append_assoc b.errors g.errors h.errors);
  has_delivered = Sublist-append ds g.delivered ds' h.delivered g.has_delivered h.has_delivered;
  has_errors = Sublist-append es g.errors es' h.errors g.has_errors h.has_errors;
}

unsubscribe-Grew : (b : EventBus) (s : ℕ) → Grew b (unsubscribe b s) [] []
unfolding unsubscribe
unsubscribe-Grew b s = same_histories b (unsubscribe b s) (ground arith) (ground arith)

-- The exceptions that the subscribers in a list raise, in order.
pub raised_by : React → TaskEvent → List ℕ → List Exn
raised_by react event [] = []
raised_by react event (s ∷ ss) =
    let rest = raised_by react event ss in
    elim (react s event).1 [ none ↦ rest | some e ↦ e ∷ rest ]

raised_by-cons :
    (react : React) (event : TaskEvent) (s : ℕ) (ss : List ℕ)
    → raised_by react event (s ∷ ss) ≡ raised_by react event (s ∷ []) ++ raised_by react event ss
unfolding raised_by
raised_by-cons react event s ss = ground arith

module _ (react : React) (nested : EventBus → TaskEvent → EventBus)
    (grows : (b : EventBus) (e : TaskEvent) → Grew b (nested b e) [] []) where
  call_bus-Grew : (b : EventBus) (cs : List BusCall) → Grew b (call_bus react nested b cs) [] []
  unfolding call_bus
  call_bus-Grew b [] = same_histories b b refl refl
  call_bus-Grew b (join s ∷ cs) =
      let c : EventBus = record b { subscribers = b.subscribers ++ s ∷ [] } in
      Grew-trans b c _ [] [] [] [] (same_histories b c refl refl) (call_bus-Grew c cs)
  call_bus-Grew b (leave s ∷ cs) =
      Grew-trans b (unsubscribe b s) _ [] [] [] [] (unsubscribe-Grew b s)
        (call_bus-Grew (unsubscribe b s) cs)
  call_bus-Grew b (emits e ∷ cs) =
      Grew-trans b (nested b e) _ [] [] [] [] (grows b e) (call_bus-Grew (nested b e) cs)

  deliver-Grew :
      (event : TaskEvent) (b : EventBus) (s : ℕ)
      → Grew b (deliver react nested event b s) ((s, event) ∷ []) (raised_by react event (s ∷ []))
  unfolding deliver raised_by
  deliver-Grew event b s =
      let c : EventBus = record b { delivered = b.delivered ++ (s, event) ∷ [] } in
      let told = call_bus react nested c (react s event).0 in
      let first : Grew b c ((s, event) ∷ []) [] = record {
        delivered = (s, event) ∷ [];
        errors = [];
        adds_delivered = refl;
        adds_errors = sym (append-nil b.errors);
        has_delivered = inl (refl, tt);
        has_errors = tt;
      } in
      let both =
        Grew-trans b c told ((s, event) ∷ []) [] [] [] first (call_bus-Grew c (react s event).0) in
      from told (react s event).1 both
    where
      from :
          (told : EventBus) (o : Option Exn)
          → Grew b told ((s, event) ∷ []) []
          → Grew b
              (elim o [ none ↦ told | some e ↦ record told { errors = told.errors ++ e ∷ [] } ])
              ((s, event) ∷ [])
              (elim o [ none ↦ [] | some e ↦ e ∷ [] ])
      from told none g = g
      from told (some e) g = record {
        delivered = g.delivered;
        errors = g.errors ++ e ∷ [];
        adds_delivered = g.adds_delivered;
        adds_errors = ap (λ l. l ++ e ∷ []) g.adds_errors ∙ append_assoc b.errors g.errors (e ∷ []);
        has_delivered = g.has_delivered;
        has_errors = Sublist-skip (e ∷ []) g.errors (e ∷ []) (inl (refl, tt));
      }

  deliver_all-Grew :
      (event : TaskEvent) (b : EventBus) (ss : List ℕ)
      → Grew b
          (deliver_all react nested event b ss)
          (map (λ s. (s, event)) ss)
          (raised_by react event ss)
  unfolding deliver_all
  deliver_all-Grew event b [] = unfold raised_by in same_histories b b refl refl
  deliver_all-Grew event b (s ∷ ss) = rw (raised_by-cons react event s ss) (
      Grew-trans b (deliver react nested event b s) _ ((s, event) ∷ []) (map (λ k. (k, event)) ss)
        (raised_by react event (s ∷ [])) (raised_by react event ss) (deliver-Grew event b s)
        (deliver_all-Grew event (deliver react nested event b s) ss))

-- However deep: `emit` only adds to the histories.
emit-Grew :
    (react : React) (depth : ℕ) (b : EventBus) (event : TaskEvent)
    → Grew b (emit react depth b event) [] []
unfolding emit
emit-Grew react zero b event = same_histories b b refl refl
emit-Grew react (suc depth) b event =
    let g =
      deliver_all-Grew react (emit react depth) (emit-Grew react depth) event b b.subscribers in
    record {
      delivered = g.delivered;
      errors = g.errors;
      adds_delivered = g.adds_delivered;
      adds_errors = g.adds_errors;
      has_delivered = tt;
      has_errors = tt;
    }

abbrev pub no_emits : List BusCall → Bool
no_emits [] = true
no_emits (join s ∷ cs) = no_emits cs
no_emits (leave s ∷ cs) = no_emits cs
no_emits (emits e ∷ cs) = false

-- No subscriber emits an event when it is told of this one.
abbrev pub IsCalm : React → TaskEvent → Type 0
IsCalm react event = (s : ℕ) → no_emits (react s event).0 ≡ true

-- The bus has these deliveries and these exceptions more, and no others.
abbrev pub Exactly : EventBus → EventBus → List (ℕ × TaskEvent) → List Exn → Type 0
Exactly b c ds es = (c.delivered ≡ b.delivered ++ ds) × (c.errors ≡ b.errors ++ es)

module _ (react : React) (nested : EventBus → TaskEvent → EventBus) where
  -- Calls of subscribers on the bus that emit nothing leave its two histories alone.
  call_bus_keeps :
      (bus : EventBus) (cs : List BusCall)
      → no_emits cs ≡ true
      → ((call_bus react nested bus cs).delivered ≡ bus.delivered)
        × ((call_bus react nested bus cs).errors ≡ bus.errors)
  unfolding call_bus
  call_bus_keeps bus [] h = (refl, refl)
  call_bus_keeps bus (join s ∷ cs) h = call_bus_keeps _ cs h
  call_bus_keeps bus (leave s ∷ cs) h = ground (arith, call_bus_keeps (unsubscribe bus s) cs h)
  call_bus_keeps bus (emits e ∷ cs) h = cc

  deliver-Exactly :
      (event : TaskEvent) (bus : EventBus) (s : ℕ)
      → IsCalm react event
      → Exactly bus
          (deliver react nested event bus s)
          ((s, event) ∷ [])
          (raised_by react event (s ∷ []))
  unfolding deliver raised_by
  deliver-Exactly event bus s calm =
      let (calls, raised) = react s event in
      let told : EventBus = record bus { delivered = bus.delivered ++ (s, event) ∷ [] } in
      ground (arith, call_bus_keeps told (react s event).0 (calm s), append-nil bus.errors)

  deliver_all-Exactly :
      (event : TaskEvent) (bus : EventBus) (ss : List ℕ)
      → IsCalm react event
      → Exactly bus
          (deliver_all react nested event bus ss)
          (map (λ s. (s, event)) ss)
          (raised_by react event ss)
  unfolding deliver_all
  deliver_all-Exactly event bus [] calm =
      (sym (append-nil bus.delivered), unfold raised_by in sym (append-nil bus.errors))
  deliver_all-Exactly event bus (s ∷ ss) calm =
      let once = deliver-Exactly event bus s calm in
      let more = deliver_all-Exactly event (deliver react nested event bus s) ss calm in
      (
        cc (
          more.0,
          once.0,
          append_assoc bus.delivered ((s, event) ∷ []) (map (λ s. (s, event)) ss),
        ),
        cc (
          more.1,
          once.1,
          raised_by-cons react event s ss,
          append_assoc bus.errors (raised_by react event (s ∷ [])) (raised_by react event ss),
        ),
      )

-- `emit` calls every subscriber that is registered when it starts, once for each registration and in
-- order, and records every exception that they raise, in order, whatever the subscribers do to the
-- bus meanwhile: they may subscribe, unsubscribe, and emit further events to any depth that is
-- modelled, whose deliveries and exceptions come in between. Where no subscriber emits an event when
-- it is told of this one, nothing else is delivered and recorded.
pub emit_lem :
    (react : React) (depth : ℕ) (bus : EventBus) (event : TaskEvent)
    → Grew bus
        (emit react (suc depth) bus event)
        (map (λ s. (s, event)) bus.subscribers)
        (raised_by react event bus.subscribers)
      × (IsCalm react event
          → Exactly bus
              (emit react (suc depth) bus event)
              (map (λ s. (s, event)) bus.subscribers)
              (raised_by react event bus.subscribers))
unfolding emit
emit_lem react depth bus event = (
  deliver_all-Grew react (emit react depth) (emit-Grew react depth) event bus bus.subscribers,
  deliver_all-Exactly react (emit react depth) event bus bus.subscribers,
)
