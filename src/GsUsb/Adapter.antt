-- ===== src/GsUsb/Adapter.antt =====
-- Sending and receiving of the gs_usb adapter: `WriteFrame` and the body of `ReceiveLoop` of
-- plugins/adapter/gsUsb/gs_usb_adapter.cc. What the USB device does with the bytes is not modelled.
use encos_driver.Prelude.{
  ℕ, zero, suc, ◌+◌, ◌-◌, ◌%◌, min, leb, ◌!=◌, bit_and, bit_or, u8, if◌then◌else◌, none, some, List,
  [], ◌∷◌, ◌++◌, length, take, drop, replicate,
}
use encos_driver.Frame.{
  MotorMessage, flag_eff, flag_rtr, flag_fd_mask, sanitize, use_extended_id, use_rtr, use_canfd,
}
use encos_driver.GsUsb.{
  Frame, echo_bus_frame, can_eff, can_rtr, can_err, can_ext_id_mask, can_std_id_mask, frame_flag_fd,
  frame_flag_brs, fd_frame_size, encode_frame, decode_frame,
}

-- The frame that `WriteFrame` builds; `echo_counter` is what its `fetch_add` returns.
unfoldable pub frame_of : ℕ → MotorMessage → Frame
frame_of echo_counter message =
    let pack = message.pack in
    let flags = sanitize pack.frame_flags in
    let extended = use_extended_id flags in
    let id = bit_and pack.id (if extended then can_ext_id_mask else can_std_id_mask) in
    let with_eff = if extended then bit_or id can_eff else id in
    let dlc = u8 (min pack.len 8) in
    record {
      echo_id = echo_counter % 9 + 1;
      can_id = if use_rtr flags then bit_or with_eff can_rtr else with_eff;
      dlc = dlc;
      channel = u8 message.bus_idx;
      flags = if use_canfd flags then bit_or frame_flag_fd frame_flag_brs else 0;
      reserved = 0;
      payload = take dlc pack.payload ++ replicate (64 - dlc) 0;
    }

-- The bytes that `WriteFrame` hands to `WriteBuffer`; none if it drops the message.
unfoldable pub write_frame : ℕ → MotorMessage → List ℕ
write_frame echo_counter message = encode_frame (frame_of echo_counter message) fd_frame_size

-- The message that `ReceiveLoop` passes to `OnMessage` for a frame.
unfoldable pub message_of : Frame → MotorMessage
message_of frame =
    let extended = bit_and frame.can_id can_eff != 0 in
    let with_eff = if extended then bit_or 0 flag_eff else 0 in
    let with_rtr =
      if bit_and frame.can_id can_rtr != 0 then bit_or with_eff flag_rtr else with_eff in
    let flags =
      if bit_and frame.flags frame_flag_fd != 0 then bit_or with_rtr flag_fd_mask else with_rtr in
    let len = u8 (min frame.dlc 8) in
    record {
      bus_idx = frame.channel;
      pack = record {
        id = bit_and frame.can_id (if extended then can_ext_id_mask else can_std_id_mask);
        frame_flags = sanitize flags;
        len = len;
        payload = take len frame.payload ++ replicate (8 - len) 0;
      };
    }

-- What `ReceiveLoop` does with a decoded frame: frames of other channels, echoes of frames sent and
-- error frames are skipped.
unfoldable pub deliver : ℕ → Frame → List MotorMessage
deliver channels frame =
    if leb channels frame.channel
    then []
    else if frame.echo_id != echo_bus_frame
    then []
    else if bit_and frame.can_id can_err != 0
    then []
    else message_of frame ∷ []

-- The `while` over one buffer that `Read` returned, on fuel: the messages passed on, in order.
unfoldable pub receive : ℕ → ℕ → List ℕ → List MotorMessage
receive channels zero bytes = []
receive channels (suc fuel) bytes = elim (decode_frame bytes) [
  | none ↦ []
  | some (consumed, frame) ↦ deliver channels frame ++ receive channels fuel (drop consumed bytes)
]

-- Every round consumes at least one byte, so the size is fuel enough.
unfoldable pub receive_buffer : ℕ → List ℕ → List MotorMessage
receive_buffer channels bytes = receive channels (length bytes) bytes
