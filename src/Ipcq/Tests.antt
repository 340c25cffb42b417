-- ===== src/Ipcq/Tests.antt =====
-- Runs of cleanq/backends/ipc/ipc_queue.c on two sides in one process.
use cleanq_linux.Base.{
  ℕ, ◌+◌, ◌%◌, ◌≡◌, ◌≢◌, inl, inr, refl, ◌∙◌, ap, [], none, some, done, Bool, true, false, arith,
  Returns, Bool-cases, ◌++◌, map, replicate, ◌==◌, get_elem?, ◌⊎◌, ◌∷◌,
}
use cleanq_linux.Types.{ok, malloc_fail, invalid_region_id, Buf, Capref}
use cleanq_linux.Fifo
use cleanq_linux.Slab.{slab_init, default_refill}
use cleanq_linux.RegionPool.{
  RegionPool, freed, region_pool_init, region_pool_add_region_with_id, region_pool_remove_region,
}
use cleanq_linux.RegionPool.Size.{mask_lem}
use cleanq_linux.RegionPool.Remove.{remove_region-empty}
use cleanq_linux.RegionPool.Samples.{plenty, empty, empty-IsValid, no_block, one-IsSize, page}
use cleanq_linux.Cleanq.{cleanq_init, cleanq_add_region, cleanq_remove_region, cleanq_destroy}
use cleanq_linux.Cleanq.Commands as Commands
use cleanq_linux.Shared.{System, Mem}
use cleanq_linux.Shared.Acquire.{LeavesDescriptor}
use cleanq_linux.Ipcq.{
  Ipcq, IpcqQ, Desc, numbered, enqueue_own, ipcq_can_recv, sent_cap, handle_command, ipcq_dequeue,
  ipcq_mem_size, ipcq_backend, ipcq_can_send, ipcq_register,
}
use cleanq_linux.Ipcq.Create.{layout, cleanq_ipcq_create}
use cleanq_linux.Ipcq.Ring.{ring_slots, Linked, in_flight, sees, capacity, pushed, push-Linked}
use cleanq_linux.Ipcq.Receive.{told}
use cleanq_linux.Ipcq.Takes.{Takes, IsAcknowledged}
use cleanq_linux.Ipcq.Refine.{Dequeues, next_data, enqueue_own_refines, ipcq_dequeue_refines}
use cleanq_linux.Ipcq.Pair.{Works, success, first, create-Linked}
use cleanq_linux.Ipcq.OneWay.{enqueue_own-unheard}
use cleanq_linux.Ipcq.Wait.{AnyFrees, Sent, ipcq_register-Sent}
use cleanq_linux.Ipcq.Release.{cleanq_ipcq_create-LeavesDescriptor, destroy-crash}
use cleanq_linux.Ipcq.Samples.{starved, no_callbacks, buf, left, right, over, linked}
use cleanq_linux.Ipcq.Drain.{play-drained}
use cleanq_linux.Ipcq.History.{send, receive, History, play, IsPlain, IsInOrder}

enqueue_own_refines_example :
    let (err, tx') = enqueue_own left buf 0 in
    Linked tx' (sees right tx')
    × ((err, in_flight tx' (sees right tx'))
        ≡ Fifo.push (capacity left right) (in_flight left right) (numbered 1 buf 0))
enqueue_own_refines_example = enqueue_own_refines linked buf 0 (omega arith)

never_adds :
    (cap : Capref) (rid : ℕ)
    → region_pool_add_region_with_id plenty starved cap rid ≡ done (malloc_fail, starved)
unfolding region_pool_add_region_with_id
never_adds cap rid =
    let zeroth : rid % 1 ≡ 0 = omega arith in
    let slot : get_elem? starved.pool (rid % 1) ≡ some none = ap (get_elem? starved.pool) zeroth in
    rw (mask_lem rid one-IsSize, slot)

never_removes :
    (rid : ℕ) → region_pool_remove_region starved rid ≡ done (invalid_region_id, none, starved)
never_removes rid =
    let zeroth : rid % 1 ≡ 0 = omega arith in
    let slot : get_elem? starved.pool (rid % 1) ≡ some none = ap (get_elem? starved.pool) zeroth in
    remove_region-empty starved rid (empty-IsValid 1 no_block one-IsSize) slot

abbrev Starved : IpcqQ → Type 0
Starved q = q.pool ≡ starved

handles :
    (round : ℕ) (q : IpcqQ) (d : Desc)
    → Starved q
    → Returns
        (handle_command no_callbacks (λ n. plenty) round q d)
        λ r. Starved r.1 × (r.1.own ≡ q.own)
unfolding handle_command Commands.handle_register_command Commands.handle_deregister_command
    cleanq_add_region cleanq_remove_region
handles round q d e = elim (Bool-cases (d.cmd == 1)) [
  | inl register ↦
      let refused =
        ap (λ p. region_pool_add_region_with_id plenty p (sent_cap d.buf) d.buf.rid) e
        ∙ never_adds (sent_cap d.buf) d.buf.rid in
      ((malloc_fail, record q { pool = starved }), rw (register, refused), (refl, refl))
  | inr deregister ↦
      let refused = ap (λ p. region_pool_remove_region p d.buf.rid) e ∙ never_removes d.buf.rid in
      ((invalid_region_id, record q { pool = starved }), rw (deregister, refused), (refl, refl))
]

-- A register command is in flight.
abbrev sent : Ipcq
sent = pushed left (numbered 1 buf 1)

ipcq_dequeue_refines_example :
    Returns (ipcq_dequeue no_callbacks (λ n. plenty) 5 (over (sees right sent)) buf) λ r.
      let ds = in_flight sent (sees right sent) in
      Starved r.2
      × Dequeues sent buf (next_data ds) r
      × Takes no_callbacks
          (λ n. plenty)
          5
          (over (sees right sent))
          ds
          (next_data ds).0
          r.2
          (next_data ds).1
      × (((ds ≡ []) × (r.2 ≡ over (sees right sent))) ⊎ IsAcknowledged r.2)
ipcq_dequeue_refines_example =
    ipcq_dequeue_refines no_callbacks (λ n. plenty) Starved (λ q o e. e) handles 5 sent
      (over (sees right sent)) buf
      (push-Linked linked (numbered 1 buf 1) refl (omega arith) (omega arith)) refl (omega arith)

abbrev new_pool : RegionPool
new_pool = empty 16 (slab_init 48 default_refill)

abbrev system : Bool → Mem → System
system creator found = record {
  calloc_ok = true;
  strdup = some 1;
  exclusive_ok = creator;
  open_ok = true;
  truncate_ok = true;
  mapped = some 65536;
  found = found;
  pool_ok = true;
  slots_ok = true;
  random = 20480;
}

works : (one : Bool) (found : Mem) → Works (system one found) one 1 65536 new_pool
unfolding cleanq_init region_pool_init
works one found = record {
  calloc = refl;
  strdup = refl;
  exclusive = refl;
  opens = refl;
  truncates = refl;
  maps = refl;
  inits = refl;
}

abbrev creator : System
creator = system true (λ a. 0)

abbrev left_memory : Mem
left_memory =
    (first creator (system false (λ a. 0)) 1 65536 new_pool new_pool false (works true (λ a. 0))
      (works false (λ a. 0))).shared

abbrev joiner : System
joiner = system false left_memory

create-Linked_example :
    (q₁ q₂ : IpcqQ) × (cleanq_ipcq_create creator true ≡ success q₁)
    × (cleanq_ipcq_create joiner false ≡ success q₂)
    × Linked (told q₁.own q₂.own) q₂.own
    × (in_flight (told q₁.own q₂.own) q₂.own ≡ [])
create-Linked_example =
    create-Linked creator joiner 1 65536 new_pool new_pool false (works true (λ a. 0))
      (works false left_memory) refl

cleanq_ipcq_create-LeavesDescriptor_example :
    LeavesDescriptor
      (record creator { mapped = none })
      (cleanq_ipcq_create (record creator { mapped = none }) true)
cleanq_ipcq_create-LeavesDescriptor_example =
    cleanq_ipcq_create-LeavesDescriptor (record creator { mapped = none }) true

enqueue_own-unheard_example :
    (left.rx_descs ≡ 0 + ipcq_mem_size)
    × (let (err, tx') = enqueue_own right buf 0 in
        ipcq_can_recv (sees left tx') ≡ ipcq_can_recv (sees left right))
unfolding layout
enqueue_own-unheard_example = enqueue_own-unheard right left 0 buf 0 refl refl refl refl

destroy-crash_example :
    cleanq_destroy (ipcq_backend no_callbacks (λ n. plenty) 5 []) (over left)
    ≢ done (ok, freed (over left).pool)
destroy-crash_example =
    destroy-crash no_callbacks (λ n. plenty) 5 [] (over left) (freed (over left).pool)

-- The ring is full until the other side acknowledges one receive.
abbrev full : Ipcq
full = record left { tx_seq = 64; shared = λ a. 1 }

frees : (ipcq_can_send full ≡ true) ⊎ AnyFrees full (1 ∷ 2 ∷ [])
frees = inr (inr (inl refl))

is_full : ipcq_can_send full ≡ false
unfolding ipcq_can_send
is_full = refl

ipcq_register-Sent_example :
    (q' : IpcqQ) × (ipcq_register (1 ∷ 2 ∷ []) (over full) (page 1) 22 ≡ done (ok, q'))
    × Sent
        (over full)
        q'
        (record {
          rid = 22;
          offset = (page 1).vaddr;
          length = (page 1).len;
          valid_data = (page 1).paddr;
          valid_length = 0;
          flags = 0;
        })
        1
ipcq_register-Sent_example = ipcq_register-Sent (1 ∷ 2 ∷ []) (over full) 22 frees (page 1)

abbrev two_sides : History
two_sides = record { sender = over left; receiver = over right; accepted = []; delivered = [] }

two_sides-IsInOrder : IsInOrder two_sides
unfolding IsPlain
two_sides-IsInOrder = record { linked = linked; plain = tt; order = refl }

abbrev other : Buf
other = record buf { offset = 4096 }

play-drained_example :
    Returns
      (play no_callbacks
        (λ n. plenty)
        buf
        two_sides
        (send buf ∷ send other ∷ receive ∷ receive ∷ receive ∷ send buf ∷ []))
      λ h'.
        (h'.accepted ≡ h'.delivered ++ map (λ d. d.buf) (in_flight h'.sender.own h'.receiver.own))
        × Returns
            (play no_callbacks (λ n. plenty) buf h' (replicate ring_slots receive))
            λ end. (end.accepted ≡ h'.accepted) × (end.delivered ≡ h'.accepted)
play-drained_example =
    play-drained no_callbacks (λ n. plenty) buf two_sides
      (send buf ∷ send other ∷ receive ∷ receive ∷ receive ∷ send buf ∷ []) two_sides-IsInOrder
      (omega arith)
