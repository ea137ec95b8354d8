-- ===== src/App/Server/Laws.antt =====
-- The clients that the accept loop hands on, with the handler of main.c.
use wifi_sniffer.Prelude.{
  ℕ, suc, ◌≡◌, refl, ap, ◌∙◌, sym, Bool, true, false, some, List, [], ◌∷◌, ◌++◌, ◌==◌,
  if◌then◌else◌,
}
use mathlib.Core.List.{append_assoc, append-nil}
use wifi_sniffer.Prelude.Results.{done, pure, modify, bind_done, ◌>>◌}
use wifi_sniffer.Nvs.Api.{NvsApi}
use wifi_sniffer.Sniffer.State.{Kernel, Sniffer}
use wifi_sniffer.Sniffer.Control.{sniffer_start}
use wifi_sniffer.App.{App, on_sniffer, disconnect_socket, on_socket_accept_handler}
use wifi_sniffer.App.Server.{Accepted, failed, client, on_accept, accepted, accept_loop}

-- The sockets with an IPv4 peer, in the order of `accept`.
abbrev pub inet_clients : List Accepted → List ℕ
inet_clients [] = []
inet_clients (failed ∷ xs) = inet_clients xs
inet_clients (client sock true ∷ xs) = sock ∷ inet_clients xs
inet_clients (client sock false ∷ xs) = inet_clients xs

abbrev pub last_client : ℕ → List ℕ → ℕ
last_client sock [] = sock
last_client sock (c ∷ cs) = last_client c cs

abbrev pub open_one : ℕ → List ℕ
open_one sock = if sock == 0 then [] else sock ∷ []

-- Each client but the last, after the one that was there.
abbrev pub replaced : ℕ → List ℕ → List ℕ
replaced sock [] = []
replaced sock (c ∷ cs) = open_one sock ++ replaced c cs

-- `t` holds `sock` and has closed more sockets than `s`, in that order.
abbrev pub Becomes : {N : NvsApi} → App N → ℕ → List ℕ → App N → Type 0
Becomes s sock closed t = (t.sock ≡ sock) × (t.closed ≡ s.closed ++ closed) × (t.sent ≡ s.sent)

disconnect_lem :
    {N : NvsApi} (sock : ℕ) (s : App N)
    → disconnect_socket sock s ≡ done tt (record s { closed = s.closed ++ open_one sock })
unfolding disconnect_socket
disconnect_lem {N} sock s = go (sock == 0)
  where
    go :
        (b : Bool)
        → (if b
              then pure tt
              else modify (λ (t : App N). record t { closed = t.closed ++ (sock ∷ []) }))
            s
          ≡ done tt (record s { closed = s.closed ++ (if b then [] else sock ∷ []) })
    go true = ap (λ l. done tt (record s { closed = l })) (sym (append-nil s.closed))
    go false = refl

module _ {N : NvsApi} (k : Kernel) where
  start_lem :
      (s : App N)
      → (u : Sniffer N) × (on_sniffer (sniffer_start k) s ≡ done tt (record s { sniffer = u }))
  unfolding sniffer_start
  start_lem s = go k.alloc
    where
      go :
          (b : Bool)
          → (u : Sniffer N) × (on_sniffer
                (λ t.
                  if b
                  then done tt (record t {
                    tasks = t.next_task ∷ t.tasks;
                    next_task = suc t.next_task;
                    sniff_handle = some t.next_task;
                  })
                  else done tt t)
                s
              ≡ done tt (record s { sniffer = u }))
      go true = (
        record (s.sniffer) {
          tasks = s.sniffer.next_task ∷ s.sniffer.tasks;
          next_task = suc s.sniffer.next_task;
          sniff_handle = some s.sniffer.next_task;
        },
        refl,
      )
      go false = (s.sniffer, refl)

  on_client :
      (sock : ℕ) (s : App N)
      → (t : App N) × (on_socket_accept_handler k sock s ≡ done tt t)
        × Becomes s sock (open_one s.sock) t
  unfolding on_socket_accept_handler
  on_client sock s =
      let v = record s { sock = sock; closed = s.closed ++ open_one s.sock } in
      let (u, e) = start_lem v in
      (
        record v { sniffer = u },
        bind_done (disconnect_socket s.sock)
              (λ _. modify (λ t. record t { sock = sock }) >> on_sniffer (sniffer_start k)) s
              (record s { closed = s.closed ++ open_one s.sock }) tt (disconnect_lem s.sock s)
            ∙ e,
        (refl, refl, refl),
      )

  -- Whatever `accept` answers, in whatever order, the loop goes on: every client with an IPv4 address is taken
  -- over, the one before it is closed, so that the last one is connected and no other is open of those that
  -- were taken over; nothing is sent. A socket 0 counts as none, as in the code.
  pub accept_loop_lem :
      (xs : List Accepted) (s : App N)
      → (t : App N) × (accept_loop (some (on_socket_accept_handler k)) xs s ≡ done tt t)
        × Becomes s (last_client s.sock (inet_clients xs)) (replaced s.sock (inet_clients xs)) t
  unfolding accept_loop accepted on_accept
  accept_loop_lem [] s = (s, refl, (refl, sym (append-nil s.closed), refl))
  accept_loop_lem (failed ∷ xs) s = accept_loop_lem xs s
  accept_loop_lem (client sock false ∷ xs) s = accept_loop_lem xs s
  accept_loop_lem (client sock true ∷ xs) s =
      let (u, e, (same, shut, quiet)) = on_client sock s in
      let (t, e', (same', shut', quiet')) = accept_loop_lem xs u in
      (
        t,
        bind_done (on_socket_accept_handler k sock)
              (λ _. accept_loop (some (on_socket_accept_handler k)) xs) s u tt e
            ∙ e',
        (
          same' ∙ ap (λ n. last_client n (inet_clients xs)) same,
          shut'
              ∙ ap (λ n. u.closed ++ replaced n (inet_clients xs)) same
              ∙ ap (λ l. l ++ replaced sock (inet_clients xs)) shut
              ∙ append_assoc s.closed (open_one s.sock) (replaced sock (inet_clients xs)),
          quiet' ∙ quiet,
        ),
      )
