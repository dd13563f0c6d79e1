-- ===== src/EpollServer/SendTask.antt =====
-- `CSocketSendTask` of ComandTran/src/EpollServer.cpp: the task that sends what stands in the chain of a
-- socket. A result `none` is a fault, or the end of the fuel.
use cmdtran.Common.{
  ℕ, zero, suc, ◌+◌, ◌-◌, Bool, true, false, ◌&&◌, Option, none, some, List, take, drop, ltb, ◌==◌,
}
use cmdtran.Common.Int.{ℤ, pos, negsuc, exceeds_ℕ}
use cmdtran.Common.Map.{find, update}
use cmdtran.MemChain.{MemChain, MemNode, delete_head, put, get_head, get_size}
use cmdtran.EpollServer.Interface.{Kernel}
use cmdtran.EpollServer.{EpollServer, send_state_waiting, call_back, give_back}

module _ (kernel : Kernel) where
  open kernel use {State, send}

  -- The bytes of a node that are not sent yet.
  abbrev pub unsent : MemNode → ℕ → EpollServer State → List ℕ
  unsent n block e = drop n.begin (take n.len (e.memory block))

  -- The send task behind a `send` of a part of a node: its begin moves on, and the socket waits.
  unfoldable pub sent_part : ℕ → ℕ → MemNode → ℕ → MemChain → EpollServer State → EpollServer State
  sent_part sock a n count chain e = record e {
    socket_info =
        update sock
          (λ s. record s {
            output_chain = record chain {
              heap = put chain.heap a (some (record n { begin = n.begin + count }));
            };
            curr_send_state = send_state_waiting;
          })
          e.socket_info;
  }

  -- The send task at a node that was sent whole: it deletes the head, and reads the node after that.
  unfoldable pub sent_all :
      ℕ → Option (Bool × MemChain) → EpollServer State → Option (MemChain × EpollServer State)
  sent_all a none e = none
  sent_all a (some (done, chain)) e = elim (chain.heap a) [
    | none ↦ none
    | some n ↦ some (
      chain,
      record e {
        call_backs = call_back n 0 e.call_backs;
        send_data_mem = give_back n.buffer e.send_data_mem;
      },
    )
  ]

  abbrev pub keep_chain : ℕ → MemChain → EpollServer State → EpollServer State
  keep_chain sock chain e = record e {
    socket_info = update sock (λ s. record s { output_chain = chain }) e.socket_info;
  }

  -- The send task behind its call of `send` for a node, with the result.
  unfoldable pub sent_node :
      (MemChain → EpollServer State → Option (EpollServer State))
      → ℕ
      → ℕ
      → MemNode
      → MemChain
      → ℤ
      → EpollServer State
      → Option (EpollServer State)
  sent_node rest sock a n chain (negsuc r) e = some (keep_chain sock chain e)
  sent_node rest sock a n chain (pos r) e = elim (ltb 0 r && ltb r (n.len - n.begin)) [
    | true ↦ some (sent_part sock a n r chain e)
    | false ↦ elim (ltb 0 r && (r == (n.len - n.begin))) [
      | true ↦ elim (sent_all a (delete_head chain) e) [
        | none ↦ none
        | some (chain', e') ↦ rest chain' e'
      ]
      | false ↦ rest chain e
    ]
  ]

  unfoldable pub send_buffer :
      (MemChain → EpollServer State → Option (EpollServer State))
      → ℕ
      → ℕ
      → MemNode
      → MemChain
      → Option ℕ
      → EpollServer State
      → Option (EpollServer State)
  send_buffer rest sock a n chain none e = some (keep_chain sock chain e)
  send_buffer rest sock a n chain (some block) e =
      let (ret, k) = send sock (unsent n block e) e.kernel in
      sent_node rest sock a n chain ret (record e { kernel = k })

  unfoldable pub send_node :
      (MemChain → EpollServer State → Option (EpollServer State))
      → ℕ
      → ℕ
      → MemChain
      → Option MemNode
      → EpollServer State
      → Option (EpollServer State)
  send_node rest sock a chain none e = none
  send_node rest sock a chain (some n) e = send_buffer rest sock a n chain n.buffer e

  unfoldable pub send_head :
      (MemChain → EpollServer State → Option (EpollServer State))
      → ℕ
      → MemChain
      → Option ℕ
      → EpollServer State
      → Option (EpollServer State)
  send_head rest sock chain none e = none
  send_head rest sock chain (some a) e = send_node rest sock a chain (chain.heap a) e

  -- The loop of the send task.
  unfoldable pub send_chain : ℕ → ℕ → MemChain → EpollServer State → Option (EpollServer State)
  send_chain zero sock chain e = none
  send_chain (suc fuel) sock chain e = elim (exceeds_ℕ (get_size chain) 0) [
    | false ↦ some (keep_chain sock chain e)
    | true ↦ send_head (send_chain fuel sock) sock chain (get_head chain) e
  ]

  -- `CSocketSendTask::ProcessTask`.
  unfoldable pub process_send_task : ℕ → ℕ → EpollServer State → Option (EpollServer State)
  process_send_task fuel sock e = elim (find sock e.socket_info) [
    | none ↦ some e
    | some s ↦ send_chain fuel sock s.output_chain e
  ]
