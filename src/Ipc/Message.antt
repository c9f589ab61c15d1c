-- ===== src/Ipc/Message.antt =====
-- port/src/ipc.rs: `Message` and `IpcErr`. A payload byte is a number that is only moved.
use r9x.Prelude.{ℕ, ◌++◌, ◌%◌, ◌^◌, List, length, take, drop, replicate, min}

abbrev pub msg_max : ℕ
msg_max = 256

-- The opcode of a receive whose deadline passed.
abbrev pub receive_timeout : ℕ
receive_timeout = 0xffff

pub record Message : Type 0 where
  pub opcode : ℕ
  pub tag : ℕ
  pub len : ℕ
  pub buf : List ℕ

unfoldable pub zero_buf : List ℕ
zero_buf = replicate msg_max 0

-- `Message::new`: the payload is cut at `msg_max`, and the rest of the buffer stays zero.
unfoldable pub new : ℕ → ℕ → List ℕ → Message
new opcode tag payload =
    let n = min (length payload) msg_max in
    record { opcode = opcode; tag = tag; len = n % 2 ^ 16; buf = take n payload ++ drop n zero_buf }

pub data IpcErr : Type 0 where
  closed full bad_tag empty : IpcErr
