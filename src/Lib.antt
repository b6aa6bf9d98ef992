-- ===== src/Lib.antt =====
-- dwarfAlp, an ASCOM Alpaca bridge for DWARFLAB telescopes (src/dwarf_alpaca).
--
-- The program talks to a telescope over Bluetooth, to hand it its network, and then over a websocket
-- whose packets and payloads are protobuf messages. A session shares that connection among the Alpaca
-- devices. This library models the parts that decide what a byte string means, which request an
-- answer belongs to, when a slew is over, where the focuser stands, which profile a telescope has, and
-- whether an exposure can be started, is running or is over.
--
-- Ble, src/dwarf_alpaca/dwarf/ble_packets.py. Ble/Crc is `calculate_crc16`; Ble/Frame holds
-- `_build_frame`, the request builders and `parse_notification`. Bytes are numbers below 256, `Result`
-- is what a call returns or raises.
-- Wire, src/dwarf_alpaca/dwarf/session.py. Wire/Varint is `_read_varint`, Wire/Fields is
-- `_decode_com_res_with_int_value` and `_length_delimited_field`. Wire/Varint/Encode and
-- Wire/Fields/Message describe protobuf's wire format independently, by its encoder. The `while` loops
-- take fuel, one more than the bytes, which is enough since every round reads a byte.
-- Ws, src/dwarf_alpaca/dwarf/ws_client.py. Ws/Client is the state of `DwarfWsClient` with
-- `_pop_pending_request`, `connect`, `begin_request`, `cancel_pending`, `_flush_pending` and `close`;
-- Ws/Receive is `_dispatch_packet`, the end of `_reader_loop` and the way `send_request` goes on when
-- its `await` ends. A future is named by its place in a list of all futures. Code between two awaits
-- is one function, and Ws/Steps lets these follow each other in any order.
-- Goto, src/dwarf_alpaca/dwarf/session.py. Goto/State is the goto record with `_record_goto`,
-- `_resolve_goto`, `_mark_goto_pending`, `_cancel_goto` and `_clear_goto`; Goto/Notify the handlers of
-- goto, one-click and tracking notifications; Goto/Commands the start commands, the monitor of the
-- one-click response, `telescope_abort_slew` and `wait_for_goto_completion`, cut where they await.
-- Goto/Steps lets these and the steps of the websocket client follow each other in any order.
-- Focuser, src/dwarf_alpaca/dwarf/session.py. Focuser/Moves holds the loops of a focus move,
-- Focuser/Commands `focuser_connect`, `focuser_disconnect`, `focuser_move`, `focuser_halt` and
-- `_handle_focus_notification`. What the telescope does during a command is an argument, a `World`.
-- Focuser/Endpoints holds the two move requests of src/dwarf_alpaca/devices/focuser.py.
-- Profile, src/dwarf_alpaca/device_profile.py and `normalize_dwarf_device_model` of
-- src/dwarf_alpaca/config/settings.py: the tables of the three telescopes, how a model name finds one,
-- and in Profile/Devices `build_device_list`.
-- Exposure, src/dwarf_alpaca/dwarf/exposure.py. Exposure/Json is a parsed JSON document,
-- Exposure/Duration `_parse_duration`, Exposure/Options `_extract_camera_options` and
-- `_discover_options`, Exposure/Resolver `ExposureResolver`. Exposure/Floats lists what is used of
-- Python's floating-point numbers and strings.
-- Sharing, src/dwarf_alpaca/dwarf/session.py and src/dwarf_alpaca/devices/filterwheel.py.
-- Sharing/Session is `acquire`, `release`, `shutdown` and what they call, on the websocket client of Ws;
-- Sharing/Holders the lists of devices that the counts stand for; Sharing/Wheel the filter wheel's
-- requests and `set_filter_position`, each carried through before the next one; Sharing/FocuserShare the
-- connect request of src/dwarf_alpaca/devices/focuser.py.
-- Capture, src/dwarf_alpaca/dwarf/session.py: the handlers of battery, calibration, capture state and
-- capture progress notifications.
-- Camera, src/dwarf_alpaca/devices/camera.py and src/dwarf_alpaca/dwarf/session.py. Camera/Device is the
-- device's settings with the requests that change them; Camera/Capture the session's `CameraState` and
-- the first steps of `camera_start_exposure`, Camera/Start the rest of it with the dark frames and the
-- photo workflow, Camera/Fetch `_fetch_capture`, `camera_abort_exposure` and `camera_readout`;
-- Camera/Endpoint the requests in front of them, Camera/Connect the connect request with
-- `camera_connect` and `camera_disconnect` on the shared session of Sharing. A workflow is cut at its
-- awaits: each one is an `Await`, which holds what other tasks do meanwhile and how the await ends.
-- Telescope, src/dwarf_alpaca/devices/telescope.py and src/dwarf_alpaca/dwarf/session.py.
-- Telescope/Slew holds the requests for slews, aborts and axis motion, the simulated motion and the task
-- that waits for a slew; Telescope/Manual the session's joystick commands.
-- Alpaca, src/dwarf_alpaca/devices/utils.py. Alpaca/Envelope is the response envelope with the
-- transaction ids, Alpaca/Parameter the resolution of a Boolean parameter.
-- Ftp, src/dwarf_alpaca/dwarf/ftp_client.py. Ftp/Listing is the search of the server's directories,
-- Ftp/Wait the choice of the latest entry and `wait_for_new_photo` over what its polls meet until the
-- deadline.
-- Store, src/dwarf_alpaca/dwarf/state.py: `ConnectivityState` and `StateStore`, on the JSON document of
-- Exposure/Json.
-- Prelude holds the shared helpers: Boolean tests, lists over the native numbers, bits, integers.
--
-- The loop of `_fetch_capture` and the searches of the album and of FTP are recursion on the list of
-- what their rounds meet until the deadline, so they need no fuel.
--
-- Parameters: protobuf's serialiser and parsers, Python's string methods, the clock, targets (pairs of
-- floating-point numbers), whether a connection or a send succeeds, what other tasks do during an
-- await, the arithmetic of rates and coordinates, and what the FTP server shows.
-- Not modelled: sockets, keep-alive pings, the websocket client's set of notification handlers,
-- logging, the session's calibration and V3 configuration, the other Alpaca endpoints, the decoding of
-- images, temperatures, altitude and azimuth, the user interface, generated code and scripts.
pub mod Alpaca
pub mod Ble
pub mod Camera
pub mod Capture
pub mod Exposure
pub mod Focuser
pub mod Ftp
pub mod Goto
pub mod Prelude
pub mod Profile
pub mod Sharing
pub mod Store
pub mod Telescope
pub mod Wire
pub mod Ws
