-- ===== src/Lib.antt =====
-- UPower, the power daemon: a verification library of its own logic.
--
-- The daemon (src/up-daemon.c) keeps a list of devices (src/up-device-list.c), which a backend adds
-- and removes. Each device (src/up-device.c) is a store of properties; a change of one runs the
-- handlers of the device, which set its warning level and its icon, and then those of the daemon,
-- which build the composite battery out of all devices, store it in the display device, work out
-- the warning level of the system and start or stop the timer that leads to the critical action. On
-- Linux the backend (src/linux/up-backend.c) turns the events of udev into devices and the messages
-- of logind into pauses of the polling; it makes a device for each power supply of the kernel
-- (src/linux/up-device-supply.c), which reads its properties from sysfs, polls a battery faster
-- whose state is unknown, and answers the daemon whether it is on battery or online. A wireless
-- device of Logitech (src/linux/up-device-unifying.c) is asked through its receiver, by messages of
-- HID++ (src/linux/hidpp-device.c), when it starts and at every poll of the daemon. The daemon
-- also lets clients read and set the light of the keyboard (src/up-kbd-backlight.c), which it finds
-- in sysfs, and ask what wakes the processor up (src/up-wakeups.c), which it reads from /proc while
-- somebody asks. A device feeds its history (src/up-history.c), which keeps four arrays of points,
-- saves them to files by a timer or at once, and answers with graphs and profiles.
--
-- Where things are:
--   Prelude        shared names; Boolean tests, lists, integers, texts, and C's printing and reading
--                  of integers (`printf` with `%i`, `atoi`)
--   Types          libupower-glib/up-types.h and up-types.c: the enumerations (`kind`, `state`,
--                  `technology`, `level`) and the eight functions `up_device_*_to_string` and
--                  `up_device_*_from_string`
--   Floating       `gdouble` and `gfloat` as an interface
--   MainLoop       the sources of GLib's main loop as an interface
--   Storage        `g_strsplit`, `%.3f`, `atof` and GLib's file functions as interfaces
--   Device         src/up-device.c and src/up-device.h: the properties, the class with its optional
--                  methods; Device.Warning and Device.Icon are `update_warning_level` and
--                  `update_icon_name`, Device.Identity is `up_device_get_id` and the loop of
--                  `up_device_compute_object_path`, Device.Notify is `up_device_notify` with
--                  `update_history`, Device.Lifecycle the start, the refresh and the end, with
--                  `up_device_X` as `X`, and Device.Requests what clients ask for
--   DeviceList     src/up-device-list.c with reference counts; `up_device_list_X` is `X`
--   Daemon         src/up-daemon.c: `UpDaemonPrivate`; Daemon.Policy is the configuration of the
--                  thresholds and `up_daemon_compute_warning_level`, Daemon.Display the composite
--                  battery (`up_daemon_update_display_battery`), Daemon.Action the warning level
--                  and the timer (`up_daemon_set_warning_level`, `take_action_timeout_cb`),
--                  Daemon.Poll the polling of devices (`up_daemon_start_poll` and its kin),
--                  Daemon.Lifecycle the start, the end and the lid, Daemon.Devices the devices that
--                  come and go, the refresh of the batteries, the shutdown and the list of devices
--   History        src/up-history.c, libupower-glib/up-history-item.c and up-stats-item.c:
--                  History.Item and History.File are a point and a file, History.Recorder the
--                  arrays, the timer and the four files, History.Resolution, History.Graph and
--                  History.Profile what `up_history_get_data` and `up_history_get_profile_data`
--                  answer; `up_history_X` is `X`
--   Supply         src/linux/up-device-supply.c and src/linux/sysfs-utils.c: Supply.Sysfs reads the
--                  attributes (`sysfs_get_X` is `get_X`), Supply.Rate is the circular buffer and
--                  the rate, Supply.Texts and Supply.Attributes what is read from attributes,
--                  Supply.Battery `up_device_supply_refresh_battery` in its steps (Initial,
--                  Energy, Guess), Supply.Poll the faster polling, Supply.Refresh the other
--                  refreshes and the methods, Supply.Lifecycle `coldplug`, `init` and `finalize`;
--                  `up_device_supply_X` is `X`. Supply.Sound is the invariant of a device,
--                  Supply.Errors and Supply.Refusals its failures, Supply.Answers what the daemon
--                  is told of the power source
--   Backlight      src/up-kbd-backlight.c: `up_kbd_backlight_X` is `X`; Backlight.Ready is about the
--                  light that clients can reach, Backlight.Brightness about what they set and read
--   Wakeups        src/up-wakeups.c and libupower-glib/up-wakeup-item.c: Wakeups.Split is
--                  `up_strsplit_complete_set`, Wakeups.Kernel and Wakeups.Userspace the two polls,
--                  Wakeups.Timerstats their start and end and the calls of clients; `up_wakeups_X`
--                  is `X`, `poll_kernel_cb` being `poll_kernel`, and `disable_cb` being `disabled`.
--                  Wakeups.Unique and Wakeups.Programs are about the items, Wakeups.Sections about
--                  the lines, Wakeups.Silent and Wakeups.Ends about the sources in the main loop
--   Hidpp          src/linux/hidpp-device.c and hidpp-device.h: Hidpp.Transport is a request and the
--                  wait for its response (`hidpp_device_cmd`, `hidpp_device_read_resp`),
--                  Hidpp.Queries and Hidpp.Battery the parts of `hidpp_device_refresh`, in its
--                  order, and Hidpp.Refresh the whole; `hidpp_device_X` is `X`. Hidpp.Responses is
--                  about the message that ends the wait, Hidpp.Time about its end, and
--                  Hidpp.Contract about the result and the error of a refresh
--   Unifying       src/linux/up-device-unifying.c: the refresh, and in Unifying.Coldplug the start;
--                  `up_device_unifying_X` is `X`, the refresh being `refresh_unifying`.
--                  Unifying.Ends is about the polls, Unifying.Started about the start
--   Backend        src/linux/up-backend.c: the choice of the driver and the events of udev; in
--                  Backend.Critical the choice of the critical action, in Backend.Sleep the sleep
--                  with its inhibitor lock; `up_backend_X` is `X`
--   Examples       runs on concrete inputs
--
-- How the code is read: a structure is a record, an operation a function from the state to the new
-- state and its result, with `none` or `false` where the function fails. An object is a number, its
-- address. The time is an argument, in seconds; one call of an operation sees one time. A `guint`
-- or `guint64` wraps around where the code computes with it (`% 2 ^ 32`, `% 2 ^ 64`); `glong` is 64
-- bits wide, as on the systems that the daemon runs on, so comparisons of the time of day with a
-- `guint` do not wrap. Bytes of texts are those of ASCII.
--
-- What is not under this repository is a parameter. Floating-point numbers are a type with the
-- operations that the code uses and, where a theorem needs them, the laws of comparison that IEEE
-- 754 gives (no law on sums or rounding). The main loop hands out new identifiers greater than 0,
-- keeps the interval of each source, and a removal takes away one source. A text is split at every separator. A file that was written
-- is read back as it was, and other files stay. Each of these has an instance in which the laws
-- hold and the model runs: thousandths, a counted table of sources, a splitter, files in memory.
-- Whole literals keep their order, and single precision holds those up to 2^24 exactly.
-- `g_ascii_strtod`, `g_ascii_strcasecmp`, `g_strstrip`, `g_ascii_isprint` and `g_utf8_validate` are
-- parameters with no law; open files and `g_ascii_strtoll` are parameters with the laws that are
-- named in Backlight.Brightness; the hidraw files and the clock that counts on are a parameter, and
-- Hidpp.Time names its laws: each look at the clock shows a later time, a wait is at most about as
-- long as it was asked to be, and a bounded number of messages is queued; the neighbours of a device
-- in udev and the clocks are given to each call. `g_ptr_array_sort` is a parameter with no law.
-- GObject's signals and weak references are a parameter with no law, and so are the backend's
-- function that finds the devices at the start, the answers of logind, and, for the backend, the
-- start and the refresh of a device. Device.Lifecycle takes the answer of the bus to an export as a
-- parameter, and the methods of the kinds of device, which it assumes not to move a device on the
-- bus.
--
-- Loops run over the arrays of the code by structural recursion. Fuel stands in six places: in
-- printing a number, one more than the number, which has no more digits than that; in the loop
-- around the circular buffer, its four places, and any more gives the same sums; in the loop that
-- moves printable characters, one more than the length of the text; in the wait for a
-- response, a microsecond of its three seconds for each round; in the discarding of messages,
-- one more than can be queued; and two for `up_backend_device_add` and `up_backend_device_changed`,
-- which call each other once at most. The waiting and the discarding end by theorems, and more fuel
-- than two changes nothing by another. Reading a number consumes the text.
--
-- Not modelled: the drivers for HID, USB and Bluetooth of src/linux, its input switches, the start
-- of its backend and the devices of BlueZ, the systems of src/freebsd, src/openbsd and src/bsd,
-- src/dummy, the client library, the command line tool, D-Bus replies but those of the light and
-- the wakeups, debug output, and the registration of GObject classes. They are input and output, or
-- glue, or await their turn. The handlers that a changed property runs are those of Device.Notify
-- and Daemon.Action; the functions of Supply set the properties only.
pub mod Prelude
pub mod Types
pub mod Floating
pub mod MainLoop
pub mod Storage
pub mod History
pub mod Device
pub mod DeviceList
pub mod Daemon
pub mod Supply
pub mod Backlight
pub mod Wakeups
pub mod Hidpp
pub mod Unifying
pub mod Backend
pub mod Examples
