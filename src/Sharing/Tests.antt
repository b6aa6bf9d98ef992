-- ===== src/Sharing/Tests.antt =====
-- Runs of the shared session and the filter wheel, and instances of their theorems. Message classes,
-- messages and filter labels are numbers.
use dwarf_alp.Prelude.{ℕ, ◌≡◌, refl, true, false, none, some, [], ◌∷◌, ◌==◌, if◌then◌else◌}
use dwarf_alp.Ws.Client.{Client, no_conn}
use dwarf_alp.Focuser.Commands as Focuser
use dwarf_alp.Focuser.Moves.{quiet}
use dwarf_alp.Focuser.Endpoints.{endpoint_state}
use dwarf_alp.Sharing.Session.{
  DeviceName, no_refs, Session, World, no_task, running, acquire, release, set_count,
}
use dwarf_alp.Sharing.Holders.{Holds, Holds-acquire, no_refs-Holds}
use dwarf_alp.Sharing.Release.{run, release_call, Refines, calls_refine}
use dwarf_alp.Sharing.Wheel.{System, Wheel, put_connected, response}
use dwarf_alp.Sharing.Latch.{wheel_count}
use dwarf_alp.Sharing.Steps.{
  reachable-IsLatched, connected_wheel_keeps_session, here, later, connected_put,
}
use dwarf_alp.Sharing.Connect.{Selected, put_connected-Selected}
use dwarf_alp.Sharing.FocuserShare.{Focusing, put_focuser_connected, connected_twice}

abbrev world : World ℕ ℕ
world = record {
  reachable = true;
  granted = true;
  bootstrapped = true;
  traffic = λ c. c;
  capture_raises = false;
  dwarf_ap_ip = 1;
  refreshes_temperature = true;
}

abbrev client : Client ℕ ℕ
client = record {
  conn = no_conn;
  pending = [];
  pending_aliases = [];
  connected_event = false;
  futures = [];
}

abbrev start : Session ℕ ℕ
start = record {
  simulation = false;
  refs = no_refs;
  ws_client = client;
  http_open = true;
  master_lock_acquired = false;
  ws_bootstrapped = false;
  last_calibration_time = none;
  last_calibration_ip = none;
  calibration_task = no_task;
  capture_start_response_task = no_task;
  capture_stop_response_task = no_task;
  capture_task = no_task;
  temperature_task = no_task;
  one_click_response_task = no_task;
}

abbrev held : Session ℕ ℕ
held = record start {
  refs = set_count DeviceName.camera 1 no_refs;
  master_lock_acquired = true;
  calibration_task = running;
}

acquire-camera : (acquire world DeviceName.camera start).1.refs.camera ≡ 1
unfolding acquire
acquire-camera = refl

held-Holds : Holds (DeviceName.camera ∷ []) held.refs
held-Holds = Holds-acquire [] DeviceName.camera no_refs no_refs-Holds

calls_refine_example :
    Refines
      (release_call world DeviceName.camera)
      (DeviceName.camera ∷ [])
      held
      (run (release_call world DeviceName.camera) held)
calls_refine_example =
    calls_refine (release_call world DeviceName.camera) (DeviceName.camera ∷ []) held held-Holds

abbrev wheel : Wheel ℕ ℕ ℕ
wheel = record {
  has_filterwheel = true;
  is_mini = false;
  profile_labels = [];
  labels = some (7 ∷ 8 ∷ []);
  options = some (7 ∷ 8 ∷ []);
  applied = none;
  same_label = ◌==◌;
  is_blank = λ l. l == 0;
  on_acquire = world;
  on_move = world;
  on_release = world;
}

abbrev system : System ℕ ℕ ℕ
system = record {
  session = start;
  filter_index = none;
  filter_name = 0;
  wheel = record { connected = false; position = none; names = []; focus_offsets = [] };
}

abbrev connected : System ℕ ℕ ℕ
connected = (put_connected wheel true system).1

connected-on : connected.wheel.connected ≡ true
unfolding put_connected
connected-on = refl

reachable-IsLatched_example : wheel_count connected ≡ (if connected.wheel.connected then 1 else 0)
reachable-IsLatched_example =
    reachable-IsLatched system connected (refl, refl) (later here (connected_put wheel true))

connected_wheel_keeps_session_example :
    (release world DeviceName.camera connected.session).ws_client ≡ connected.session.ws_client
connected_wheel_keeps_session_example =
    connected_wheel_keeps_session system connected world DeviceName.camera (refl, refl)
      (later here (connected_put wheel true)) refl connected-on

put_connected-Selected_example : Selected wheel connected
put_connected-Selected_example = put_connected-Selected wheel system refl connected-on

abbrev focus : Focuser.World
focus = record {
  simulation = true;
  is_dwarf_mini = false;
  uses_v3_protocol = false;
  tolerance = 5;
  ensures_ws = true;
  turns = λ n. record { drift = none; answer = quiet };
  start = record { drift = none; answer = quiet };
  waits = [];
  stop = quiet;
  nudges = λ n. quiet;
  infinity_pos = none;
}

abbrev focusing : Focusing ℕ ℕ
focusing = record {
  session = start;
  focuser = record { connected = false; position = 0; is_moving = false };
  endpoint = endpoint_state;
}

connects :
    (put_focuser_connected world focus false (connected_twice world world focus focus focusing)).0
    ≡ response
unfolding put_focuser_connected
connects = refl
