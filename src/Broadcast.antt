-- ===== src/Broadcast.antt =====
-- `tokio::sync::broadcast`, which the rooms send their events through: a parameter of the model.
-- `Bus` is the state of every channel of the process, which the handles of all tasks share; a
-- `Sender` and its clones name one channel.
use parrhesia_backend.Common.{
  ℕ, suc, ◌<◌, ◌≤◌, ◌≡◌, ◌≢◌, refl, List, [], ◌∷◌, ◌++◌, arith, length, if◌then◌else◌, nat_eq, ◌==◌,
  ==-ne, ==-refl, ◌⊎◌, inl, inr,
}
use native.Mathlib.Decide.{ℕ_discrete}

pub record Broadcast (E : Type 0) : Type 1 where
  pub Bus : Type 0
  pub Sender : Type 0
  pub Receiver : Type 0
  pub channel : ℕ → Bus → Sender × Bus
  pub send : Sender → E → Bus → Bus
  pub subscribe : Sender → Bus → Receiver × Bus

-- The documented behaviour: a channel is there once it was made, and has at least the capacity that
-- was asked for; it keeps the values that were sent on it in their order, and a receiver gets those
-- that are sent after it subscribed, unless it lags behind by more than the capacity.
pub record BroadcastLaws {E : Type 0} (bc : Broadcast E) : Type 1 where
  pub IsOpen : bc.Sender → bc.Bus → Type 0
  pub same_channel : Discrete bc.Sender
  pub sent : bc.Sender → bc.Bus → List E
  pub source : bc.Receiver → bc.Sender
  pub from : bc.Receiver → ℕ
  pub capacity : bc.Sender → bc.Bus → ℕ
  pub channel_fresh : (n : ℕ) (b : bc.Bus) → ¬ IsOpen (bc.channel n b).0 b
  pub channel-IsOpen : (n : ℕ) (b : bc.Bus) → IsOpen (bc.channel n b).0 (bc.channel n b).1
  pub channel_keeps :
      (n : ℕ) (b : bc.Bus) (s : bc.Sender) → IsOpen s b → IsOpen s (bc.channel n b).1
  pub send_keeps : (s x : bc.Sender) (e : E) (b : bc.Bus) → IsOpen x b → IsOpen x (bc.send s e b)
  pub subscribe_keeps : (s x : bc.Sender) (b : bc.Bus) → IsOpen x b → IsOpen x (bc.subscribe s b).1
  pub channel_only :
      (n : ℕ) (b : bc.Bus) (s : bc.Sender)
      → IsOpen s (bc.channel n b).1
      → IsOpen s b ⊎ (s ≡ (bc.channel n b).0)
  pub send_only : (s x : bc.Sender) (e : E) (b : bc.Bus) → IsOpen x (bc.send s e b) → IsOpen x b
  pub subscribe_only : (s x : bc.Sender) (b : bc.Bus) → IsOpen x (bc.subscribe s b).1 → IsOpen x b
  pub capacity-channel : (n : ℕ) (b : bc.Bus) → n ≤ capacity (bc.channel n b).0 (bc.channel n b).1
  pub capacity-channel_other :
      (n : ℕ) (b : bc.Bus) (s : bc.Sender)
      → IsOpen s b
      → capacity s (bc.channel n b).1 ≡ capacity s b
  pub capacity-send :
      (s x : bc.Sender) (e : E) (b : bc.Bus) → capacity x (bc.send s e b) ≡ capacity x b
  pub capacity-subscribe :
      (s x : bc.Sender) (b : bc.Bus) → capacity x (bc.subscribe s b).1 ≡ capacity x b
  pub sent-channel : (n : ℕ) (b : bc.Bus) → sent (bc.channel n b).0 (bc.channel n b).1 ≡ []
  pub sent-channel_other :
      (n : ℕ) (b : bc.Bus) (s : bc.Sender) → IsOpen s b → sent s (bc.channel n b).1 ≡ sent s b
  pub sent-send : (s : bc.Sender) (e : E) (b : bc.Bus) → sent s (bc.send s e b) ≡ sent s b ++ e ∷ []
  pub sent-send_other :
      (s x : bc.Sender) (e : E) (b : bc.Bus) → s ≢ x → sent x (bc.send s e b) ≡ sent x b
  pub sent-subscribe : (s x : bc.Sender) (b : bc.Bus) → sent x (bc.subscribe s b).1 ≡ sent x b
  pub source-subscribe : (s : bc.Sender) (b : bc.Bus) → source (bc.subscribe s b).0 ≡ s
  pub from-subscribe : (s : bc.Sender) (b : bc.Bus) → from (bc.subscribe s b).0 ≡ length (sent s b)

-- An instance that runs: the channels by number, each with all that was sent on it and its capacity.
pub record Log (E : Type 0) : Type 0 where
  pub next : ℕ
  pub events : ℕ → List E
  pub capacities : ℕ → ℕ

abbrev record_event : {E : Type 0} → ℕ → E → Log E → ℕ → List E
record_event s e b x = if s == x then b.events x ++ e ∷ [] else b.events x

abbrev open_channel : {E : Type 0} → Log E → ℕ → List E
open_channel b x = if b.next == x then [] else b.events x

abbrev put_capacity : {E : Type 0} → ℕ → Log E → ℕ → ℕ
put_capacity n b x = if b.next == x then n else b.capacities x

abbrev pub log_bus : (E : Type 0) → Broadcast E
log_bus E = record {
  Bus = Log E;
  Sender = ℕ;
  Receiver = ℕ × ℕ;
  channel = λ n b. (
    b.next,
    record { next = suc b.next; events = open_channel b; capacities = put_capacity n b },
  );
  send = λ s e b. record b { events = record_event s e b };
  subscribe = λ s b. ((s, length (b.events s)), b);
}

opened : {E : Type 0} (b : Log E) (s : ℕ) → s < b.next → open_channel b s ≡ b.events s
opened b s h = rw (==-ne b.next s (λ e. omega arith))

capacity_kept :
    {E : Type 0} (n : ℕ) (b : Log E) (s : ℕ) → s < b.next → put_capacity n b s ≡ b.capacities s
capacity_kept n b s h = rw (==-ne b.next s (λ e. omega arith))

unfoldable pub log_laws : (E : Type 0) → BroadcastLaws (log_bus E)
unfolding opened capacity_kept
log_laws E = record {
  IsOpen = λ s b. s < b.next;
  same_channel = ℕ_discrete;
  sent = λ s b. b.events s;
  source = λ r. r.0;
  from = λ r. r.1;
  capacity = λ s b. b.capacities s;
  channel_fresh = λ n b h. omega arith;
  channel-IsOpen = λ n b. omega arith;
  channel_keeps = λ n b s h. omega arith;
  send_keeps = λ s x e b h. h;
  subscribe_keeps = λ s x b h. h;
  channel_only =
      λ n b s h. elim (ℕ_discrete s b.next) [ yes e ↦ inr e | no e ↦ inl (omega (arith, e)) ];
  send_only = λ s x e b h. h;
  subscribe_only = λ s x b h. h;
  capacity-channel = λ n b. rw (==-refl b.next) (omega arith);
  capacity-channel_other = λ n b s h. capacity_kept n b s h;
  capacity-send = λ s x e b. refl;
  capacity-subscribe = λ s x b. refl;
  sent-channel = λ n b. rw (==-refl b.next);
  sent-channel_other = λ n b s h. opened b s h;
  sent-send = λ s e b. rw (==-refl s);
  sent-send_other = λ s x e b h. rw (==-ne s x h);
  sent-subscribe = λ s x b. refl;
  source-subscribe = λ s b. refl;
  from-subscribe = λ s b. refl;
}
