-- ===== src/Sharing/Session.antt =====
-- `acquire`, `release`, `shutdown`, `_ensure_ws`, `_ensure_master_lock`, `_release_master_lock` and
-- `_cancel_capture_protocol_tasks` of src/dwarf_alpaca/dwarf/session.py. `self._lock` makes each
-- `acquire` and `release` one step. A task that is cancelled or awaited here is then gone.
use dwarf_alp.Prelude.{
  ℕ, ◌+◌, ◌-◌, Bool, true, false, not, ◌&&◌, ◌||◌, Option, none, some, ◌==◌, if◌then◌else◌,
}
use dwarf_alp.Ws.Dict.{Key}
use dwarf_alp.Ws.Client.{Client, ok, raised, connected, connect, cancel_pending, close}

pub data DeviceName : Type 0 where
  telescope camera focuser filterwheel : DeviceName

-- `_refs`
pub record Refs : Type 0 where
  pub telescope : ℕ
  pub camera : ℕ
  pub focuser : ℕ
  pub filterwheel : ℕ

abbrev pub no_refs : Refs
no_refs = record { telescope = 0; camera = 0; focuser = 0; filterwheel = 0 }

abbrev pub count : DeviceName → Refs → ℕ
count DeviceName.telescope r = r.telescope
count DeviceName.camera r = r.camera
count DeviceName.focuser r = r.focuser
count DeviceName.filterwheel r = r.filterwheel

-- `self._refs[device] = n`
abbrev pub set_count : DeviceName → ℕ → Refs → Refs
set_count DeviceName.telescope n r = record r { telescope = n }
set_count DeviceName.camera n r = record r { camera = n }
set_count DeviceName.focuser n r = record r { focuser = n }
set_count DeviceName.filterwheel n r = record r { filterwheel = n }

-- `all(count == 0 for count in self._refs.values())`
abbrev pub is_unused : Refs → Bool
is_unused r = r.telescope == 0 && r.camera == 0 && r.focuser == 0 && r.filterwheel == 0

pub data Task : Type 0 where
  no_task running done : Task

pub record Session (C M : Type 0) : Type 0 where
  pub simulation : Bool
  pub refs : Refs
  pub ws_client : Client C M
  pub http_open : Bool
  pub master_lock_acquired : Bool
  pub ws_bootstrapped : Bool
  pub last_calibration_time : Option ℕ
  pub last_calibration_ip : Option ℕ
  pub calibration_task : Task
  pub capture_start_response_task : Task
  pub capture_stop_response_task : Task
  pub capture_task : Task
  pub temperature_task : Task
  pub one_click_response_task : Task

-- What happens outside the session during a call: whether a connection can be opened, whether the
-- telescope grants its master lock, whether the bootstrap commands go through, what the exchange of
-- messages does to the client, whether the cancelled capture raises. `dwarf_ap_ip` and
-- `refreshes_temperature` are settings; an address is a number.
pub record World (C M : Type 0) : Type 0 where
  pub reachable : Bool
  pub granted : Bool
  pub bootstrapped : Bool
  pub traffic : Client C M → Client C M
  pub capture_raises : Bool
  pub dwarf_ap_ip : ℕ
  pub refreshes_temperature : Bool

-- `MODULE_ASTRO` with the commands that start and stop a capture.
abbrev pub start_capture : Key
start_capture = record { module_id = 3; command_id = 11005 }

abbrev pub stop_capture : Key
stop_capture = record { module_id = 3; command_id = 11006 }

abbrev pub same_ip : Option ℕ → ℕ → Bool
same_ip none ip = false
same_ip (some a) ip = a == ip

module _ {C M : Type 0} where
  -- `_ensure_master_lock`, which bootstraps the connection.
  unfoldable pub ensure_master_lock : World C M → Session C M → Session C M
  ensure_master_lock world s =
      if s.simulation || s.master_lock_acquired
      then s
      else if not (connected s.ws_client)
      then s
      else record s {
        ws_bootstrapped = s.ws_bootstrapped || world.bootstrapped;
        ws_client = world.traffic s.ws_client;
        master_lock_acquired = world.granted;
      }

  -- `_ensure_temperature_monitor_task`
  unfoldable pub ensure_temperature_monitor_task : World C M → Session C M → Session C M
  ensure_temperature_monitor_task world s =
      let task : Task = elim s.temperature_task [
        | no_task ↦ no_task
        | running ↦ running
        | done ↦ no_task
      ] in
      let started : Task = elim task [ no_task ↦ running | running ↦ running | done ↦ done ] in
      record s {
        temperature_task =
            if s.simulation || not world.refreshes_temperature then task else started;
      }

  -- What a new connection resets.
  unfoldable pub reset_connection : World C M → Session C M → Session C M
  reset_connection world s =
      let same = same_ip s.last_calibration_ip world.dwarf_ap_ip in
      record s {
        master_lock_acquired = false;
        ws_bootstrapped = false;
        last_calibration_time = if same then s.last_calibration_time else none;
        last_calibration_ip = if same then s.last_calibration_ip else none;
      }

  -- Beside the state, whether the call raised.
  unfoldable pub ensure_ws : World C M → Session C M → Bool × Session C M
  unfolding connect reset_connection ensure_master_lock ensure_temperature_monitor_task
  ensure_ws world s =
      if s.simulation
      then (false, s)
      else let was_connected = connected s.ws_client in
        let (opened, client) = connect world.reachable s.ws_client in
        let s1 : Session C M = record s { ws_client = client } in
        elim opened [
          | raised e ↦ (true, s1)
          | ok _ ↦
              let s2 : Session C M =
                if not was_connected && connected client then reset_connection world s1 else s1 in
              (false, ensure_temperature_monitor_task world (ensure_master_lock world s2))
        ]

  unfoldable pub set_refs : DeviceName → ℕ → Session C M → Session C M
  set_refs device n s = record s { refs = set_count device n s.refs }

  unfoldable pub acquire : World C M → DeviceName → Session C M → Bool × Session C M
  unfolding ensure_ws set_refs
  acquire world device s =
      let (failed, s1) = ensure_ws world (set_refs device (count device s.refs + 1) s) in
      if failed then (true, set_refs device (count device s1.refs - 1) s1) else (false, s1)

  unfoldable pub cancel_capture_protocol_tasks : Session C M → Session C M
  unfolding cancel_pending
  cancel_capture_protocol_tasks s =
      let client = (cancel_pending start_capture none s.ws_client).1 in
      record s {
        capture_start_response_task = no_task;
        capture_stop_response_task = no_task;
        ws_client = (cancel_pending stop_capture none client).1;
      }

  unfoldable pub release_master_lock : World C M → Session C M → Session C M
  unfolding connect
  release_master_lock world s =
      if s.simulation
      then record s { master_lock_acquired = false }
      else if not s.master_lock_acquired
      then s
      else let (opened, client) = connect world.reachable s.ws_client in
        elim opened [
          | raised e ↦ record s { master_lock_acquired = false; ws_client = client }
          | ok _ ↦ record s { master_lock_acquired = false; ws_client = world.traffic client }
        ]

  -- `await self._ws_client.close()` and `await self._http_client.aclose()`
  unfoldable pub close_clients : Session C M → Session C M
  unfolding close
  close_clients s = record s { ws_client = close s.ws_client; http_open = false }

  -- What `release` does when no device is left.
  unfoldable pub close_session : World C M → Session C M → Session C M
  unfolding cancel_capture_protocol_tasks release_master_lock close_clients
  close_session world s = close_clients (
      release_master_lock world
        (record (cancel_capture_protocol_tasks s) { calibration_task = no_task }))

  unfoldable pub release : World C M → DeviceName → Session C M → Session C M
  unfolding set_refs close_session
  release world device s =
      let s1 = set_refs device (count device s.refs - 1) s in
      if not s1.simulation && is_unused s1.refs then close_session world s1 else s1

  -- The end of `shutdown`, behind the capture task.
  unfoldable pub finish_shutdown : World C M → Session C M → Session C M
  unfolding cancel_capture_protocol_tasks release_master_lock close_clients
  finish_shutdown world s =
      let s1 : Session C M = record (cancel_capture_protocol_tasks s) {
        capture_task = no_task;
        temperature_task = no_task;
        calibration_task = no_task;
        one_click_response_task = no_task;
      } in
      let s2 = release_master_lock world s1 in
      let s3 = if s2.simulation then s2 else close_clients s2 in
      record s3 {
        master_lock_acquired = false;
        ws_bootstrapped = false;
        refs = no_refs;
        last_calibration_time = none;
        last_calibration_ip = none;
      }

  -- Beside the state, whether the call raised.
  unfoldable pub shutdown : World C M → Session C M → Bool × Session C M
  unfolding finish_shutdown
  shutdown world s = elim s.capture_task [
    | running ↦
        if world.capture_raises
        then (true, record s { capture_task = done })
        else (false, finish_shutdown world s)
    | no_task ↦ (false, finish_shutdown world s)
    | done ↦ (false, finish_shutdown world s)
  ]
