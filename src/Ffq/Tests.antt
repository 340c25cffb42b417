-- ===== src/Ffq/Tests.antt =====
-- Runs of cleanq/backends/ff/ff_queue.c on two sides in one process.
use cleanq_linux.Base.{ℕ, ◌≡◌, refl, [], ◌∷◌, none, some, done, Bool, true, false, arith, Returns}
use cleanq_linux.Types.{ok, queue_empty, queue_full, Buf}
use cleanq_linux.Fifo
use cleanq_linux.RegionPool.{RegionPool, region_pool_init, region_pool_add_region_with_id}
use cleanq_linux.RegionPool.Insert.{put}
use cleanq_linux.Cleanq.Commands.{handle_register_command}
use cleanq_linux.RegionPool.Samples.{
  plenty, page, roomy, roomy-IsValid, with_page, one_block, empty, takes_first,
}
use cleanq_linux.Slab.{slab_init, slab_alloc, default_refill}
use cleanq_linux.Cleanq.{Callbacks, cleanq_init, cleanq_add_region}
use cleanq_linux.Shared.{System, Mem}
use cleanq_linux.Shared.Acquire.{LeavesDescriptor}
use cleanq_linux.Ffq.{
  Ffq, FfqQ, to_message, ff_enqueue, ff_dequeue, register_message, handle_command, ff_register,
}
use cleanq_linux.Ffq.Channel.{send, recv, slot_empty, write_message, read_message}
use cleanq_linux.Ffq.Create.{cleanq_ffq_create}
use cleanq_linux.Ffq.Slot.{IsEnd}
use cleanq_linux.Ffq.Refine.{outgoing, incoming, received, ff_enqueue_refines, ff_dequeue_refines}
use cleanq_linux.Ffq.Release.{cleanq_ffq_create-LeavesDescriptor}
use cleanq_linux.RegionPool.Add.{Added}
use cleanq_linux.Ffq.Register.{ff_register-Added}
use cleanq_linux.Ffq.Ends.{Joined, seen_by, ff_enqueue-dequeue}
use cleanq_linux.Ffq.Fresh.{Works, chan, prepared, success, create-Joined}

abbrev no_callbacks : Callbacks Ffq
no_callbacks = record {
  on_register = λ f q cap rid. done (ok, q);
  on_deregister = λ f q rid. done (ok, q);
}

abbrev side : RegionPool → ℕ → ℕ → Mem → FfqQ
side pool tx rx m = record {
  pool = pool;
  state = 0;
  register_callback = none;
  deregister_callback = none;
  own = record {
    txq = chan send tx;
    rxq = chan recv rx;
    name = some 1;
    rxtx_mem = some 65536;
    memsize = 8192;
    shared = m;
  };
}

-- all slots empty
abbrev quiet : Mem
quiet = λ a. slot_empty

abbrev buf : Buf
buf = record { offset = 1024; length = 2048; valid_data = 0; valid_length = 64; flags = 0; rid = 6 }

abbrev left : Mem → FfqQ
left m = side with_page 69632 65536 m

abbrev right : Mem → FfqQ
right m = side with_page 65536 69632 m

sender : (m : Mem) → IsEnd send (left m).own.txq
sender m = record { facing = refl; pos_in = omega arith }

receiver : (m : Mem) → IsEnd recv (right m).own.rxq
receiver m = record { facing = refl; pos_in = omega arith }

joined : Joined (left quiet) (right quiet)
joined = record { sender = sender quiet; receiver = receiver quiet; slot = refl; memory = refl }

ff_enqueue_refines_example : Returns (ff_enqueue (left quiet) buf) λ r.
    (r.1 ≡ record (left quiet) { own = record ((left quiet).own) { shared = r.1.own.shared } })
    × ((r.0, outgoing r.1) ≡ Fifo.push 1 (outgoing (left quiet)) buf)
ff_enqueue_refines_example = ff_enqueue_refines (left quiet) buf (sender quiet) (omega arith)

-- a message in the slot from left to right
abbrev carrying : Buf → Mem
carrying b = write_message quiet 69632 (to_message b)

arrives : incoming (right (carrying buf)) ≡ buf ∷ []
unfolding write_message read_message
arrives = refl

ff_dequeue_refines_example :
    let q = right (carrying buf) in
    Returns (ff_dequeue no_callbacks (λ n. plenty) 1 q buf) λ r.
      (r.2 ≡ record q { own = record (q.own) { shared = r.2.own.shared } })
      × (let (err, b, rest) = Fifo.pop (incoming q) in
          (r.0 ≡ err) × (r.1 ≡ Fifo.delivered buf b) × (incoming r.2 ≡ rest))
ff_dequeue_refines_example =
    ff_dequeue_refines no_callbacks (λ n. plenty) 0 (right (carrying buf)) buf
      (receiver (carrying buf)) (λ b e. cc (arrives, e))

-- page 1 under id 22, for a side with an empty pool
abbrev command : Buf
command = register_message (page 1) 22

abbrev asked : FfqQ
asked = side roomy 65536 69632 (carrying command)

abbrev answered : FfqQ
answered = record (received asked) { pool = put roomy roomy-IsValid (page 1) 65560 one_block 0 22 }

command_arrives : incoming asked ≡ command ∷ []
unfolding write_message read_message
command_arrives = refl

handled : handle_command no_callbacks (λ n. plenty) 1 (received asked) command ≡ done (ok, answered)
unfolding handle_command handle_register_command cleanq_add_region region_pool_add_region_with_id
    slab_alloc
handled = refl

ff_enqueue-dequeue_example :
    (tx' tx'' rx' : FfqQ) × (ff_enqueue (left quiet) buf ≡ done (ok, tx'))
    × (ff_enqueue tx' (record buf { offset = 4096 }) ≡ done (queue_full, tx''))
    × (ff_dequeue no_callbacks (λ n. plenty) 1 (seen_by (right quiet) tx'') buf
        ≡ done (ok, buf, rx'))
    × (incoming rx' ≡ [])
ff_enqueue-dequeue_example =
    ff_enqueue-dequeue no_callbacks (λ n. plenty) 0 (left quiet) (right quiet) buf buf
      (record buf { offset = 4096 }) joined (omega arith) (omega arith) refl refl

abbrev new_pool : RegionPool
new_pool = empty 16 (slab_init 48 default_refill)

abbrev system : Bool → Mem → System
system creator found = record {
  calloc_ok = true;
  strdup = some 1;
  exclusive_ok = creator;
  open_ok = true;
  truncate_ok = true;
  mapped = some 65536;
  found = found;
  pool_ok = true;
  slots_ok = true;
  random = 20480;
}

abbrev creator : System
creator = system true (λ a. 0)

abbrev joiner : System
joiner = system false (prepared creator 65536 true)

works : (first : Bool) (found : Mem) → Works (system first found) first 1 65536 new_pool
unfolding cleanq_init region_pool_init
works first found = record {
  calloc = refl;
  strdup = refl;
  exclusive = refl;
  opens = refl;
  truncates = refl;
  maps = refl;
  inits = refl;
}

create-Joined_example :
    (q₁ q₂ : FfqQ) × (cleanq_ffq_create creator true ≡ done (success q₁))
    × (cleanq_ffq_create joiner false ≡ done (success q₂))
    × Joined q₁ q₂
    × Joined q₂ q₁
    × (outgoing q₁ ≡ [])
    × (outgoing q₂ ≡ [])
create-Joined_example =
    create-Joined creator joiner 1 65536 new_pool new_pool true false (works true (λ a. 0))
      (works false (prepared creator 65536 true)) refl refl

cleanq_ffq_create-LeavesDescriptor_example :
    Returns
      (cleanq_ffq_create (record creator { pool_ok = false }) true)
      (LeavesDescriptor (record creator { pool_ok = false }))
cleanq_ffq_create-LeavesDescriptor_example =
    cleanq_ffq_create-LeavesDescriptor (record creator { pool_ok = false }) true refl

-- the other side, with an empty pool
abbrev bare : FfqQ
bare = side roomy 65536 69632 quiet

ff_register-Added_example :
    (tx' rx' : FfqQ) × (ff_register (left quiet) (page 1) 22 ≡ done (ok, tx'))
    × (ff_dequeue no_callbacks (λ n. plenty) 2 (seen_by bare tx') buf
        ≡ done (queue_empty, register_message (page 1) 22, rx'))
    × Added roomy rx'.pool (page 1) 22 65560
    × (incoming rx' ≡ [])
ff_register-Added_example =
    ff_register-Added no_callbacks (λ n. plenty) (left quiet) bare (page 1) 22 buf
      (record { sender = sender quiet; receiver = receiver quiet; slot = refl; memory = refl })
      (omega arith) refl roomy-IsValid 65560 one_block takes_first refl (omega arith) refl
