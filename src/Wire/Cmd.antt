-- ===== src/Wire/Cmd.antt =====
-- crates/studio-core/src/wire.rs: the command bytes, and the flag that marks a reply.
use tuning_tools.Base.{ℕ}

abbrev pub reply : ℕ
reply = 0x80

abbrev pub hello : ℕ
hello = 0x01

abbrev pub lease : ℕ
lease = 0x02

abbrev pub release : ℕ
release = 0x03

abbrev pub catalog : ℕ
catalog = 0x10

abbrev pub read : ℕ
read = 0x11

abbrev pub write : ℕ
write = 0x12

abbrev pub discard : ℕ
discard = 0x13

abbrev pub save : ℕ
save = 0x14

abbrev pub watch : ℕ
watch = 0x20

abbrev pub stats : ℕ
stats = 0x22

abbrev pub sample : ℕ
sample = 0x40
