-- ===== src/Startup/Laws.antt =====
-- How src/main.rs can fail to start, and what it serves when it does not.
use parrhesia_backend.Common.{
  ◌≡◌, refl, ap, ◌∙◌, ◌⊎◌, inl, inr, Bool, true, false, Option, none, some, List, [], ◌∷◌, String,
  Result, ok, err, All, Bool-cases, Option-cases, arith, string_eq,
}
use parrhesia_backend.Http.{HeaderValue}
use parrhesia_backend.Float.{Float}
use parrhesia_backend.Broadcast.{Broadcast}
use parrhesia_backend.Config.{Config, Parsers, is_origin, from_env}
use parrhesia_backend.Config.Accepted.{IsAccepted, from_env-IsAccepted}
use parrhesia_backend.Db.{DbError}
use parrhesia_backend.Server.{new_state}
use parrhesia_backend.Rooms.Events.{RoomEvent}
use parrhesia_backend.Startup.{init_pool, cors_origins, Boot, Started, bind, launch, start}

-- Each value is what its text parses to.
abbrev pub Parsed : Parsers → List String → List HeaderValue → Type 0
Parsed p [] [] = Unit
Parsed p (s ∷ ss) (v ∷ vs) = (p.header_value s ≡ some v) × Parsed p ss vs
Parsed p _ _ = ⊥

is_origin_value :
    (p : Parsers) (s : String)
    → is_origin p s ≡ true
    → (v : HeaderValue) × (p.header_value s ≡ some v)
unfolding is_origin
is_origin_value p s h = elim (Option-cases (p.header_value s)) [
  | inr found ↦ found
  | inl e ↦ absurd (ground (arith, e))
]

-- Every origin of an accepted configuration is a header value.
cors_origins-Parsed :
    (p : Parsers) (ss : List String)
    → All (λ s. is_origin p s ≡ true) ss
    → (vs : List HeaderValue) × (cors_origins p ss ≡ some vs) × Parsed p ss vs
unfolding cors_origins
cors_origins-Parsed p [] h = ([], refl, tt)
cors_origins-Parsed p (s ∷ ss) (h, hs) =
    let (v, e) = is_origin_value p s h in
    let (vs, f, k) = cors_origins-Parsed p ss hs in (v ∷ vs, rw (e, f, cors_origins) refl, (e, k))

module _ (p : Parsers) (fl : Float) (bc : Broadcast RoomEvent) (b : Boot bc.Bus) where
  -- How a start goes on from its configuration.
  abbrev pub Launched : Config → Result (Started p fl bc) String → Type 0
  Launched c r =
      let (opened, schema) = init_pool b.connecting b.faults b.schema in
      ((e : DbError) × (opened ≡ err e) × (r ≡ err "Failed to initialize database"))
      ⊎ (((opened ≡ ok tt) × (b.is_bound ≡ false) × (r ≡ err "Failed to bind to address"))
          ⊎ ((opened ≡ ok tt)
              × (b.is_bound ≡ true)
              × ((origins : List HeaderValue) × Parsed p c.allowed_origins origins
                  × (r ≡ ok (c, origins, new_state fl bc b.table b.bus)))))

  launch-Launched : (c : Config) → IsAccepted p c → Launched c (launch p fl bc b c)
  unfolding launch
  launch-Launched c a = opened (init_pool b.connecting b.faults b.schema).0 refl
    where
      listed : Option (List HeaderValue) → Result (Started p fl bc) String
      listed o = elim o [
        | none ↦ err "validated origin"
        | some origins ↦ bind p fl bc b.is_bound (c, origins, new_state fl bc b.table b.bus)
      ]

      answer : Result (Unit {0}) DbError → Result (Started p fl bc) String
      answer r = elim r [
        | err e ↦ err "Failed to initialize database"
        | ok _ ↦ listed (cors_origins p c.allowed_origins)
      ]

      bound :
          (is_bound : Bool) (s : Started p fl bc) → is_bound ≡ true → bind p fl bc is_bound s ≡ ok s
      bound is_bound s t = rw t

      unbound :
          (is_bound : Bool) (s : Started p fl bc)
          → is_bound ≡ false
          → bind p fl bc is_bound s ≡ err "Failed to bind to address"
      unbound is_bound s t = rw t

      opened :
          (r : Result (Unit {0}) DbError)
          → (init_pool b.connecting b.faults b.schema).0 ≡ r
          → Launched c (answer r)
      opened (err e) h = inl (e, h, refl)
      opened (ok _) h =
          let (vs, f, k) = cors_origins-Parsed p c.allowed_origins a.origins in
          let s : Started p fl bc = (c, vs, new_state fl bc b.table b.bus) in
          elim (Bool-cases b.is_bound) [
            | inl t ↦ inr (inr (h, t, (vs, k, ap listed f ∙ bound b.is_bound s t)))
            | inr t ↦ inr (inl (h, t, ap listed f ∙ unbound b.is_bound s t))
          ]

  -- A start that panics says why: the environment is refused, the database or its migrations fail,
  -- or the address cannot be bound, in this order; the origins of an accepted configuration never
  -- make it panic. Otherwise the process serves the rooms of the table with no room in memory, and
  -- allows exactly the configured origins.
  pub start-Launched :
      ((message : String) × (from_env p b.env ≡ err message) × (start p fl bc b ≡ err message))
      ⊎ ((c : Config) × (from_env p b.env ≡ ok c) × Launched c (start p fl bc b))
  unfolding start
  start-Launched = read (from_env p b.env) refl
    where
      answer : Result Config String → Result (Started p fl bc) String
      answer r = elim r [ err message ↦ err message | ok c ↦ launch p fl bc b c ]

      read :
          (r : Result Config String)
          → from_env p b.env ≡ r
          → ((message : String) × (from_env p b.env ≡ err message) × (answer r ≡ err message))
            ⊎ ((c : Config) × (from_env p b.env ≡ ok c) × Launched c (answer r))
      read (err message) h = inl (message, h, refl)
      read (ok c) h = inr (c, h, launch-Launched c (from_env-IsAccepted p b.env c h))
