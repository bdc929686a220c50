-- ===== src/MessageLoop.antt =====
-- src/ppb_message_loop.c: message loops, which are resources of src/pp_resource.c. Threads post
-- tasks to a loop's asynchronous queue; the thread that runs the loop moves them to a queue ordered
-- by time, and runs those that are due and belong to its nesting depth.
-- The clock, the callbacks and the tasks that other threads post are arguments. Delays are not
-- negative. `none` as a result of an operation is that its thread still waits for the loop's lock.
pub mod Queue
pub mod Run
pub mod Posting
use freshplayerplugin.Base.{
  ℕ, zero, suc, ◌+◌, ◌-◌, ◌*◌, ◌/◌, ◌%◌, Bool, true, false, not, ◌&&◌, ◌||◌, Option, none, some,
  List, [], ◌∷◌, ◌++◌, ◌==◌, leb, if◌then◌else◌, ℤ, pos, ◌>>=◌,
}
use freshplayerplugin.Resource.Access.{finish, with_resource, make}
use freshplayerplugin.Resource.{
  Registry, Res, got, missing, busy, allocate, acquire, store, release, get_type,
}

abbrev pub loop_type : ℕ
loop_type = 22

-- `struct timespec`
pub record Time : Type 0 where
  pub sec : ℕ
  pub nsec : ℕ

-- `struct message_loop_task_s`, less the name that only the trace prints. `callback` is the
-- function's address, `none` for NULL.
pub record Task : Type 0 where
  pub when : Time
  pub terminate : Bool
  pub depth : ℤ
  pub callback : Option ℕ
  pub user_data : ℕ
  pub result_to_pass : ℕ
  pub should_destroy_ml : Bool

-- The part of `struct pp_message_loop_s` behind the common fields. `queues` says that the queues
-- exist.
pub record Loop : Type 0 where
  pub queues : Bool
  pub async_q : List Task
  pub int_q : List Task
  pub running : Bool
  pub teardown : Bool
  pub depth : ℤ

-- The static variables, with the table of resources, and the variables of one thread.
pub record World : Type 0 where
  pub registry : Registry Loop
  pub main_loop : ℕ
  pub browser_loop : ℕ

pub record Thread : Type 0 where
  pub this_thread_message_loop : ℕ
  pub not_suitable : Bool

pub data Status : Type 0 where
  ok bad_resource wrong_thread in_progress bad_argument failed : Status

abbrev zeroed : Loop
zeroed = record {
  queues = false;
  async_q = [];
  int_q = [];
  running = false;
  teardown = false;
  depth = pos 0;
}

-- An operation on an acquired loop: `absent` if there is no such loop.
unfoldable pub with_loop {ℓ} :
    {A : Type ℓ} → ℕ → Registry Loop → A → (Res Loop → Registry Loop → A) → Option A
unfolding with_resource
with_loop h g absent act = with_resource loop_type h g absent act

-- The instance is what `tables_get_pp_instance` finds. The handle 0 is an error.
unfoldable pub create : Option ℕ → World → Option (World × ℕ)
unfolding make
create inst w = do
  (g, h) ←
      make zeroed (λ l. record l { queues = true; async_q = []; int_q = []; depth = pos 0 })
        loop_type inst w.registry
  some (record w { registry = g }, h)

-- the destructor of a loop
unfoldable pub destroy : Loop → Loop
destroy l = record l { queues = false; async_q = []; int_q = [] }

unfoldable pub proclaim_this_thread_main : Thread → World → World × Status
proclaim_this_thread_main t w =
    if t.this_thread_message_loop == 0
    then (w, wrong_thread)
    else (record w { main_loop = t.this_thread_message_loop }, ok)

unfoldable pub proclaim_this_thread_browser : Thread → World → World × Status
proclaim_this_thread_browser t w =
    if t.this_thread_message_loop == 0
    then (w, wrong_thread)
    else (record w { browser_loop = t.this_thread_message_loop }, ok)

unfoldable pub get_depth : ℕ → World → Option (World × ℤ)
unfolding with_loop
get_depth h w =
    with_loop h w.registry (w, pos 0)
      (λ r g. (record w { registry = (release h g).0 }, r.body.depth))

unfoldable pub mark_thread_unsuitable : Thread → Thread
mark_thread_unsuitable t = record t { not_suitable = true }

unfoldable pub attach_to_current_thread : ℕ → World → Thread → Thread × Status
attach_to_current_thread h w t =
    if not (get_type h w.registry == loop_type)
    then (t, bad_resource)
    else if t.not_suitable
    then (t, wrong_thread)
    else if not (t.this_thread_message_loop == 0)
    then (t, in_progress)
    else (record t { this_thread_message_loop = h }, ok)

-- `while (task->when.tv_nsec >= 1000 * 1000 * 1000)`, with fuel for the seconds that there are
unfoldable pub carry : ℕ → Time → Time
carry zero t = t
carry (suc fuel) t =
    let next = carry fuel (record { sec = t.sec + 1; nsec = t.nsec - 1000000000 }) in
    if leb 1000000000 t.nsec then next else t

-- the absolute time that a task with a delay gets
unfoldable pub after_delay : Time → ℕ → Time
unfolding carry
after_delay now delay_ms =
    let n = now.nsec + delay_ms % 1000 * 1000 * 1000 in
    carry (n / 1000000000 + 1) (record { sec = now.sec + delay_ms / 1000; nsec = n })

abbrev pub push : Task → Loop → Loop
push t l = record l { async_q = l.async_q ++ (t ∷ []) }

unfoldable pub post_work_with_result :
    Option ℕ → ℕ → ℕ → ℕ → ℤ → Time → ℕ → World → Option (World × Status)
post_work_with_result none user_data delay_ms result depth now h w = some (w, bad_argument)
post_work_with_result (some func) user_data delay_ms result depth now h w =
    with_loop h w.registry (w, bad_resource)
      (λ r g.
        if not (h == w.browser_loop) && (r.body.running && r.body.teardown)
        then (record w { registry = (release h g).0 }, failed)
        else let task : Task = record {
          when = after_delay now delay_ms;
          terminate = false;
          depth = depth;
          callback = some func;
          user_data = user_data;
          result_to_pass = result;
          should_destroy_ml = false;
        } in
          (record w { registry = finish h (push task) r g }, ok))

unfoldable pub post_work : Option ℕ → ℕ → ℕ → Time → ℕ → World → Option (World × Status)
post_work func user_data delay_ms now h w =
    post_work_with_result func user_data delay_ms 0 (pos 0) now h w

unfoldable pub post_quit_depth : Bool → ℤ → Time → ℕ → World → Option (World × Status)
unfolding with_loop
post_quit_depth should_destroy depth now h w =
    with_loop h w.registry (w, bad_resource)
      (λ r g.
        let task : Task = record {
          when = now;
          terminate = true;
          depth = depth;
          callback = none;
          user_data = 0;
          result_to_pass = 0;
          should_destroy_ml = should_destroy;
        } in
        (record w { registry = finish h (push task) r g }, ok))

unfoldable pub post_quit : Bool → Time → ℕ → World → Option (World × Status)
post_quit should_destroy now h w = do
  (w', depth) ← get_depth h w
  post_quit_depth should_destroy depth now h w'
