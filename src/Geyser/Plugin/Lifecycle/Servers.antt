-- ===== src/Geyser/Plugin/Lifecycle/Servers.antt =====
-- The servers that a plugin of zakura-grpc-geyser/src/lib.rs spawns over its life.
use zakura_grpc.Common.{
  ℕ, suc, ◌<◌, ◌≡◌, ◌⊎◌, refl, sym, ap, subst, ◌∙◌, true, false, ◌&&◌, Option, none, some, List, [],
  ◌∷◌, is_some, is_none, ltb, contains, nat_eq, ◌==◌, beq_refl, Result, ok, err, arith, Bool-cases,
  Result-cases, inl, inr,
}
use zakura_grpc.Proto.{SubscribeUpdate}
use zakura_grpc.Geyser.Config.{Config}
use zakura_grpc.Geyser.Event.Source.{Formats, PluginError}
use zakura_grpc.Geyser.Service.{GrpcService}
use zakura_grpc.Geyser.Plugin.Lifecycle.{
  Managed, LoadAnswers, Call, Node, create_pool, listen, on_load, on_unload, perform, perform_all,
  spawned_by, cancelled_by, new_node, new_plugin,
}

-- What a load may do to a plugin: nothing but a thread pool, or a server too.
pub data Loads (number : ℕ) (m : Managed) : Result PluginError GrpcService × Managed → Type 1 where
  failed :
      (e : PluginError) (k : Managed)
      → k.server ≡ m.server
      → k.shutdown ≡ m.shutdown
      → k.plugin ≡ record m.plugin { options = k.plugin.options }
      → Loads number m (err e, k)
  started :
      (s : GrpcService) (k : Managed)
      → m.server ≡ none
      → k.server ≡ some number
      → k.shutdown ≡ some number
      → k.plugin ≡ record m.plugin { options = k.plugin.options }
      → Loads number m (ok s, k)

create_pool-kept :
    (a : LoadAnswers) (m : Managed)
    → let k = (create_pool a m).1 in
      (k.server ≡ m.server)
      × (k.shutdown ≡ m.shutdown)
      × (k.plugin ≡ record m.plugin { options = k.plugin.options })
unfolding create_pool
create_pool-kept a m =
    elim (Bool-cases
      (ltb 1 m.config.event_encoding_threads && is_none m.plugin.options.encoding_pool)) [
        | inr kept ↦ rw (kept, create_pool) (refl, refl, refl)
        | inl wanted ↦ elim (Result-cases a.pool) [
          | inl (pool, e) ↦ rw (wanted, e, create_pool) (refl, refl, refl)
          | inr (x, e) ↦ rw (wanted, e, create_pool) (refl, refl, refl)
        ]
      ]

is_none_lem : (o : Option ℕ) → is_some o ≡ false → o ≡ none
is_none_lem none h = refl
is_none_lem (some n) h = cc

pub on_load-Loads :
    (unit : ℕ) (a : LoadAnswers) (number : ℕ) (m : Managed)
    → Loads number m (on_load unit a number m)
unfolding on_load
on_load-Loads unit a number m = elim (Bool-cases (is_some m.server)) [
  | inl running ↦ rw (running, on_load) (Loads.failed _ m refl refl refl)
  | inr stopped ↦
      let (server, shutdown, plugin) = create_pool-kept a m in
      elim (Result-cases (create_pool a m).0) [
        | inr (x, e) ↦ rw (stopped, e, on_load) (Loads.failed x _ server shutdown plugin)
        | inl (u, e) ↦ elim (Result-cases (listen a)) [
          | inr (x, f) ↦ rw (stopped, e, f, on_load) (Loads.failed x _ server shutdown plugin)
          | inl (v, f) ↦
              rw (stopped, e, f, on_load)
                (Loads.started _ _ (is_none_lem m.server stopped) refl refl plugin)
        ]
      ]
]

-- The token of a plugin is that of its server; the server is the last that was spawned, and not
-- cancelled; every other one is.
pub record Manages (n : Node) : Type 0 where
  pub paired : n.managed.shutdown ≡ n.managed.server
  pub newest : (k : ℕ) → n.managed.server ≡ some k → suc k ≡ n.spawned
  pub serving : (k : ℕ) → n.managed.server ≡ some k → contains n.cancelled k ≡ false
  pub alone :
      (k : ℕ) → k < n.spawned → (contains n.cancelled k ≡ true) ⊎ (n.managed.server ≡ some k)
  pub past : (k : ℕ) → contains n.cancelled k ≡ true → k < n.spawned

some-injective : (a b : ℕ) → Path (Option ℕ) (some a) (some b) → a ≡ b
some-injective a b p = cc p

none_ne_some : (a : ℕ) → Path (Option ℕ) none (some a) → ⊥
none_ne_some a p = cc p

<-suc-cases : (a b : ℕ) → a < suc b → (a < b) ⊎ (b ≡ a)
<-suc-cases a b h = ground (arith, h)

loaded-Manages :
    (n : Node) (r : Result PluginError GrpcService × Managed)
    → Loads n.spawned n.managed r
    → Manages n
    → Manages (record n { managed = r.1; spawned = spawned_by r.0 n.spawned })
loaded-Manages n r (Loads.failed e k server shutdown plugin) v = record {
  paired = shutdown ∙ v.paired ∙ sym server;
  newest = λ j h. v.newest j (sym server ∙ h);
  serving = λ j h. v.serving j (sym server ∙ h);
  alone = λ j h. elim (v.alone j h) [ inl c ↦ inl c | inr s ↦ inr (server ∙ s) ];
  past = v.past;
}
loaded-Manages n r (Loads.started s k stopped server shutdown plugin) v = record {
  paired = shutdown ∙ sym server;
  newest = λ j h. ap suc (sym (some-injective n.spawned j (sym server ∙ h)));
  serving = λ j h.
      let same = some-injective n.spawned j (sym server ∙ h) in
      elim (Bool-cases (contains n.cancelled j)) [
        | inl c ↦ absurd (omega (arith, v.past j c, same))
        | inr c ↦ c
      ];
  alone = λ j h. elim (<-suc-cases j n.spawned h) [
    | inl below ↦ elim (v.alone j below) [
      | inl c ↦ inl c
      | inr r ↦ absurd (none_ne_some j (sym stopped ∙ r))
    ]
    | inr same ↦ inr (server ∙ ap some same)
  ];
  past = λ j h. ground (arith, v.past j h);
}

contains-head : (a : ℕ) (xs : List ℕ) → contains (a ∷ xs) a ≡ true
unfolding contains
contains-head a xs = ground (arith, beq_refl a)

contains-tail : (a x : ℕ) (xs : List ℕ) → contains xs a ≡ true → contains (x ∷ xs) a ≡ true
unfolding contains
contains-tail a x xs h = ground arith

contains-cons :
    (a x : ℕ) (xs : List ℕ) → contains (x ∷ xs) a ≡ true → (a ≡ x) ⊎ (contains xs a ≡ true)
unfolding contains
contains-cons a x xs h = elim (Bool-cases (a == x)) [
  | inl e ↦ inl ((nat_eq.beq_iff a x).0 e)
  | inr e ↦ inr (ground arith)
]

unload-Manages :
    (n : Node) (token : Option ℕ)
    → n.managed.shutdown ≡ token
    → Manages n
    → Manages (record n {
      managed = record n.managed { shutdown = none; server = none };
      cancelled = cancelled_by token n.cancelled;
    })
unload-Manages n none e v =
    let stopped = sym v.paired ∙ e in
    record {
      paired = refl;
      newest = λ j h. absurd (none_ne_some j h);
      serving = λ j h. absurd (none_ne_some j h);
      alone = λ j h. elim (v.alone j h) [
        | inl c ↦ inl c
        | inr r ↦ absurd (none_ne_some j (sym stopped ∙ r))
      ];
      past = v.past;
    }
unload-Manages n (some token) e v =
    let served = sym v.paired ∙ e in
    record {
      paired = refl;
      newest = λ j h. absurd (none_ne_some j h);
      serving = λ j h. absurd (none_ne_some j h);
      alone = λ j h. elim (v.alone j h) [
        | inl c ↦ inl (contains-tail j token n.cancelled c)
        | inr r ↦ inl (
            subst (λ k. contains (token ∷ n.cancelled) k ≡ true)
              (some-injective token j (sym served ∙ r)) (contains-head token n.cancelled))
      ];
      past = λ j h. elim (contains-cons j token n.cancelled h) [
        | inl same ↦ omega (arith, same, v.newest token served)
        | inr c ↦ v.past j c
      ];
    }

module _ (unit : ℕ) (encoded_len : SubscribeUpdate → ℕ) (formats : Formats) where
  perform-Manages :
      (c : Call) (n : Node) → Manages n → Manages (perform unit encoded_len formats c n).1
  unfolding perform on_unload
  perform-Manages (Call.load a) n v =
      loaded-Manages n _ (on_load-Loads unit a n.spawned n.managed) v
  perform-Manages (Call.event e now) n v = record {
    paired = v.paired;
    newest = v.newest;
    serving = v.serving;
    alone = v.alone;
    past = v.past;
  }
  perform-Manages Call.unload n v = unload-Manages n n.managed.shutdown refl v

  -- From a plugin of which it holds, over any sequence of loads, some of which fail or come too
  -- early, events and unloads, the token of the plugin is that of its server, which is the last one
  -- spawned and not cancelled, and every other server that was spawned is cancelled.
  pub life-Manages :
      (calls : List Call) (n : Node)
      → Manages n
      → Manages (perform_all unit encoded_len formats calls n).1
  unfolding perform_all
  life-Manages [] n v = v
  life-Manages (c ∷ cs) n v = life-Manages cs _ (perform-Manages c n v)

pub Manages-new : (unit : ℕ) (c : Config) → Manages (new_node (new_plugin unit c))
unfolding new_plugin contains
Manages-new unit c = record {
  paired = refl;
  newest = λ j h. absurd (none_ne_some j h);
  serving = λ j h. refl;
  alone = λ j h. absurd (omega arith);
  past = λ j h. cc;
}
