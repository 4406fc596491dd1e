-- ===== src/Client/ControlLoop.antt =====
-- zenbedded_rcl/src/zenbedded_client.cpp: `control_thread_fn`, the loop that publishes the state.
use zephyr_zenoh_integration.Prelude.{
  ℕ, Bool, List, [], ◌∷◌, ◌++◌, Option, some, ◌>>=◌, if◌then◌else◌,
}
use zephyr_zenoh_integration.Transport.State.{Transport, Call}
use zephyr_zenoh_integration.Client.Codec.Contract.{StateCodec, CommandCodec}
use zephyr_zenoh_integration.Client.Lifecycle.{Config, period_ms, sleep_ms}
use zephyr_zenoh_integration.Client.Channels.{ZenbeddedClient, zenoh_publish_state}

module _ (config : Config) (S : StateCodec) (C : CommandCodec) where
  abbrev Client : Type 0
  Client = ZenbeddedClient S C

  -- What the thread meets in one round: the client as the other threads left it, what the clocks and
  -- zenoh answer, in the order of the calls.
  pub record Round : Type 0 where
    pub running : Bool
    pub client : Client
    pub tv : ℕ × ℕ
    pub puts : Bool
    pub now : ℕ
    pub resumed : ℕ

  -- The times the thread sleeps, and what the transport did. It ends with the rounds, or when it is
  -- told to stop.
  unfoldable pub control_rounds :
      ℕ → ℕ → List Round → Transport Unit → Option (List ℕ × Transport Unit × List Call)
  unfolding zenoh_publish_state sleep_ms
  control_rounds period prev [] t = some ([], t, [])
  control_rounds period prev (r ∷ rs) t =
      if r.running
      then (do
        (ret, t', calls) ← zenoh_publish_state config S C r.tv r.puts r.client t
        (sleeps, t'', more) ← control_rounds period r.resumed rs t'
        some (sleep_ms period r.now prev ∷ sleeps, t'', calls ++ more))
      else some ([], t, [])

  unfoldable pub control_thread_fn :
      ℕ → ℕ → List Round → Transport Unit → Option (List ℕ × Transport Unit × List Call)
  unfolding control_rounds period_ms
  control_thread_fn control_freq prev_time rounds t =
      control_rounds (period_ms control_freq) prev_time rounds t
