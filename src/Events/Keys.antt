-- ===== src/Events/Keys.antt =====
-- The keys of the registry of src/event.rs, in the order that is derived for them, and the event
-- that a queue holds.
use redox_os_kernel.Prelude.{ℕ, ◌≡◌, ◌↔◌, Bool, true, ◌&&◌, ◌||◌, arith, ltb, ◌==◌}
use redox_os_kernel.Btree.{Key}

pub record RegKey : Type 0 where
  pub scheme : ℕ
  pub number : ℕ

pub record QueueKey : Type 0 where
  pub queue : ℕ
  pub id : ℕ
  pub user_data : ℕ

abbrev lt_reg : RegKey → RegKey → Bool
lt_reg a b = ltb a.scheme b.scheme || (a.scheme == b.scheme && ltb a.number b.number)

abbrev eq_reg : RegKey → RegKey → Bool
eq_reg a b = a.scheme == b.scheme && a.number == b.number

pub eq_reg_iff : (a b : RegKey) → (eq_reg a b ≡ true) ↔ (a ≡ b)
eq_reg_iff a b = ground arith

instance abbrev pub reg_key : Key RegKey
reg_key = record { lt_key = lt_reg; eq_key = eq_reg; eq_key_iff = eq_reg_iff }

abbrev lt_queue : QueueKey → QueueKey → Bool
lt_queue a b =
    ltb a.queue b.queue
    || (a.queue == b.queue && (ltb a.id b.id || (a.id == b.id && ltb a.user_data b.user_data)))

abbrev eq_queue : QueueKey → QueueKey → Bool
eq_queue a b = a.queue == b.queue && a.id == b.id && a.user_data == b.user_data

pub eq_queue_iff : (a b : QueueKey) → (eq_queue a b ≡ true) ↔ (a ≡ b)
eq_queue_iff a b = ground arith

instance abbrev pub queue_key : Key QueueKey
queue_key = record { lt_key = lt_queue; eq_key = eq_queue; eq_key_iff = eq_queue_iff }

-- `syscall::data::Event`
pub record Event : Type 0 where
  pub id : ℕ
  pub flags : ℕ
  pub user_data : ℕ
