-- ===== src/Client/Reconnect.antt =====
-- The reconnecting subscription of zakura-grpc-client/src/reconnect.rs. Connecting is Tonic's: it
-- is a parameter, the answer to the attempt of each number. Delays are left out.
pub mod Attempts
pub mod Recovery
pub mod Handling
pub mod Loop
use zakura_grpc.Common.{
  ℕ, zero, suc, ◌-◌, ℤ, Bool, true, false, not, ◌&&◌, ◌||◌, Option, none, some, String, List, [],
  ◌∷◌, is_none, Result, ok, err, if◌then◌else◌, is_negative,
}
use zakura_grpc.Status.{Status, Code, Message, unavailable}
use zakura_grpc.Proto.{SubscribeUpdate, Update, SubscribeRequest, ResumeCheckpoint, default_request}
use zakura_grpc.Client.Dedup.{DedupState, with_height_retention, update_height}
use zakura_grpc.Client.Dedup as Dedup
use zakura_grpc.Client.Resume.{ChainResumeState, empty_chain, checkpoint, observe, from_request}

-- Of a backoff only the number of retries is modelled.
pub record Backoff : Type 0 where
  pub max_retries : ℕ

pub data ReconnectionPolicy : Type 0 where
  skip_missed_data : ReconnectionPolicy
  recover_missed_data : ℕ → ReconnectionPolicy

pub data ReplayGapPolicy : Type 0 where
  fail skip_to_live : ReplayGapPolicy

pub record ReconnectConfig : Type 0 where
  pub backoff : Backoff
  pub policy : ReconnectionPolicy
  pub checkpoint_height_buffer : ℕ
  pub replay_gap_policy : ReplayGapPolicy

pub data ZakuraGrpcClientError : Type 0 where
  transport : String → ZakuraGrpcClientError
  status : Status → ZakuraGrpcClientError

unfoldable pub is_recoverable_status : Code → Bool
is_recoverable_status Code.cancelled = true
is_recoverable_status Code.unknown = true
is_recoverable_status Code.deadline_exceeded = true
is_recoverable_status Code.resource_exhausted = true
is_recoverable_status Code.aborted = true
is_recoverable_status Code.internal = true
is_recoverable_status Code.unavailable = true
is_recoverable_status Code.data_loss = true
is_recoverable_status Code.out_of_range = true
is_recoverable_status _ = false

abbrev pub is_out_of_range : Code → Bool
is_out_of_range Code.out_of_range = true
is_out_of_range _ = false

unfoldable pub is_recoverable_client_error : ZakuraGrpcClientError → Bool
is_recoverable_client_error (ZakuraGrpcClientError.transport e) = true
is_recoverable_client_error (ZakuraGrpcClientError.status s) =
    not (is_out_of_range s.code) && is_recoverable_status s.code

unfoldable pub is_out_of_range_error : ZakuraGrpcClientError → Bool
is_out_of_range_error (ZakuraGrpcClientError.transport e) = false
is_out_of_range_error (ZakuraGrpcClientError.status s) = is_out_of_range s.code

-- What `run_subscription` keeps between messages.
pub record Session : Type 0 where
  pub current_request : SubscribeRequest
  pub checkpoint : Option ℕ
  pub chain : ChainResumeState
  pub dedup : Option DedupState
  pub commands_open : Bool

abbrev pub policy_dedup : ReconnectionPolicy → Option DedupState
policy_dedup ReconnectionPolicy.skip_missed_data = none
policy_dedup (ReconnectionPolicy.recover_missed_data n) = some (with_height_retention n)

-- The state at the start of `run_subscription`.
unfoldable pub new_session : SubscribeRequest → Option ReconnectConfig → Session
new_session initial reconnect = record {
  current_request = initial;
  checkpoint = initial.from_height;
  chain = from_request initial;
  dedup = elim reconnect [ none ↦ none | some c ↦ policy_dedup c.policy ];
  commands_open = true;
}

abbrev pub or_else {ℓ} : {A : Type ℓ} → Option A → Option A → Option A
or_else (some a) o = some a
or_else none o = o

abbrev pub finalized_of : Option ResumeCheckpoint → Option ℕ
finalized_of none = none
finalized_of (some c) = some c.finalized_height

-- The request of `reconnect_subscription`.
unfoldable pub reconnect_request : ReconnectConfig → Session → SubscribeRequest
reconnect_request c s = elim c.policy [
  | ReconnectionPolicy.skip_missed_data ↦ record s.current_request {
    from_height = none;
    resume = none;
  }
  | ReconnectionPolicy.recover_missed_data n ↦
      let resume = checkpoint s.chain in
      record s.current_request {
        resume = resume;
        from_height = or_else (finalized_of resume) (
            or_else
              (elim s.checkpoint [
                | none ↦ none
                | some height ↦ some (height - c.checkpoint_height_buffer)
              ])
              s.current_request.from_height);
      }
]

-- Giving up the missed blocks, in `run_subscription` and in `reconnect_subscription`.
unfoldable pub forget_position : Session → Session
forget_position s = record s {
  checkpoint = none;
  chain = empty_chain;
  current_request = record s.current_request { from_height = none; resume = none };
}

-- The request of the second round in `reconnect_subscription`.
unfoldable pub live_request : ReconnectConfig → Session → SubscribeRequest
live_request c s = record (reconnect_request c s) { from_height = none }

module _ {S : Type 0} (connect : ℕ → SubscribeRequest → Result ZakuraGrpcClientError S) where
  -- `connect_with_backoff`, when `left` retries remain and `n` attempts have been made: the result,
  -- and the number of attempts made.
  unfoldable pub attempts : ℕ → ℕ → SubscribeRequest → Result ZakuraGrpcClientError S × ℕ
  attempts zero n r = (connect n r, suc n)
  attempts (suc left) n r = elim (connect n r) [
    | ok subscription ↦ (ok subscription, suc n)
    | err e ↦ elim (is_recoverable_client_error e) [
      | true ↦ attempts left (suc n) r
      | false ↦ (err e, suc n)
    ]
  ]

  abbrev pub connect_with_backoff :
      Backoff → ℕ → SubscribeRequest → Result ZakuraGrpcClientError S × ℕ
  connect_with_backoff b n r = attempts b.max_retries n r

  unfoldable pub reconnect_subscription :
      ReconnectConfig → ℕ → Session → (Result ZakuraGrpcClientError S × ℕ) × Session
  reconnect_subscription c n s =
      let first = connect_with_backoff c.backoff n (reconnect_request c s) in
      elim first.0 [
        | ok subscription ↦ (first, s)
        | err e ↦ elim (is_out_of_range_error e) [
          | false ↦ (first, s)
          | true ↦ elim c.replay_gap_policy [
            | ReplayGapPolicy.fail ↦ (first, s)
            | ReplayGapPolicy.skip_to_live ↦
                (connect_with_backoff c.backoff first.1 (live_request c s), forget_position s)
          ]
        ]
      ]
