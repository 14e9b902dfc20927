-- ===== src/Queue/Tests.antt =====
-- A queue that takes two reveals, refuses a third of the same nonce, and is drained.
use quetzaldex.Prelude.{
  ℕ, ◌≡◌, ◌≤◌, refl, true, [], ◌∷◌, ◌++◌, ◌&&◌, none, some, String, if◌then◌else◌, ◌==◌,
}
use quetzaldex.Queue.{
  RevealPayload, RevealQueue, set_current_epoch, enqueue, drain_epoch, size, open_epoch, inner_of,
  put,
}
use quetzaldex.Queue.Invariant.{IsValid}
use quetzaldex.Queue.Steps.{Reach, fresh, revealed, moved, new_queue, Reach-IsValid, size-Reach}
use quetzaldex.Queue.Drain.{is_accepted, drain_epoch-enqueue}

abbrev reveal : ℕ → String → RevealPayload
reveal epoch_id order_nonce = record {
  epoch_id = epoch_id;
  order_nonce = order_nonce;
  side = true;
  amount_in = "250000";
  limit_price = "1000000000000000000";
  submitted_at_block = 40;
  owner = "0x2a";
  path_len = none;
  path = none;
  submission_tx_hash = none;
}

abbrev busy : RevealQueue
busy = enqueue (reveal 5 "0x02") (enqueue (reveal 5 "0x01") (set_current_epoch 5 new_queue))

abbrev busy-Reach : Reach busy
busy-Reach = revealed (revealed (moved fresh 5) (reveal 5 "0x01")) (reveal 5 "0x02")

busy_holds_two : size busy ≡ 2
unfolding size enqueue put inner_of open_epoch set_current_epoch
busy_holds_two = refl

busy_is_at_five : busy.current_epoch ≡ some 5
unfolding enqueue set_current_epoch
busy_is_at_five = refl

Reach-IsValid_example : IsValid busy
Reach-IsValid_example = Reach-IsValid busy-Reach

size-Reach_example : size busy ≤ 2_560
size-Reach_example = size-Reach 5 busy-Reach busy_is_at_five

drain_epoch-enqueue_example : (drain_epoch 5 (enqueue (reveal 5 "0x03") busy)).0 ≡ (
    if (5 == 5) && is_accepted (reveal 5 "0x03") busy
    then (drain_epoch 5 busy).0 ++ reveal 5 "0x03" ∷ []
    else (drain_epoch 5 busy).0)
drain_epoch-enqueue_example = drain_epoch-enqueue 5 (reveal 5 "0x03") busy
