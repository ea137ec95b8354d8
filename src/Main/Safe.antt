-- ===== src/Main/Safe.antt =====
-- What is true of the device between the runs of its parts, and that each part keeps it.
use wifi_sniffer.Prelude.{}
use wifi_sniffer.Prelude.Results.{Outcome, done, aborted, fault, Exec}
use wifi_sniffer.Prelude.Keeps.{Returns, Keeps}
use wifi_sniffer.Prelude.Triples.{Ends, Triple, Triple-after}
use wifi_sniffer.Nvs.Api.{NvsApi, Store}
use wifi_sniffer.Sniffer.State.{}
use wifi_sniffer.Sniffer.Control.Laws.{IsSniffer}
use wifi_sniffer.Wifi.Driver.{WifiLib}
use wifi_sniffer.Wifi.Connection.Single.{At, Single}
use wifi_sniffer.Wifi.Console.Keeping.{}
use wifi_sniffer.Led.{LedLib}
use wifi_sniffer.Console.{Console}
use wifi_sniffer.App.{App}
use wifi_sniffer.App.Keeping.{IsApp}
use wifi_sniffer.Main.{Device, on_store, on_wifi, on_app, on_light, on_console, with_flash}
use wifi_sniffer.Main.Run.{}

-- The sniffer's invariant, and one network interface at most that fits the driver's mode.
abbrev pub Safe : {N : NvsApi} {L : LedLib} → Device N L → Type 0
Safe s = IsSniffer s.app.sniffer × At Single s.wifi

module _ {N : NvsApi} {L : LedLib} where
  pub Triple-on_store :
      {A : Type 0} (m : Exec (Store N) A) → Triple {S = Device N L} Safe (on_store m) (λ _. Safe)
  Triple-on_store {A} m = record { ends = λ s p. go s (m s.flash) p }
    where
      go :
          (s : Device N L) (o : Outcome (Store N) A)
          → Safe s
          → Ends
              (λ _. Safe)
              (elim o as (λ _. Outcome (Device N L) A) [
                | done a t ↦ done a (record s { flash = t })
                | aborted e t ↦ aborted e (record s { flash = t })
                | fault ↦ fault
              ])
      go s (done a t) p = p
      go s (aborted e t) p = tt
      go s fault p = tt

  pub Triple-on_light :
      (m : Exec L.Light (Unit {0})) → Triple {S = Device N L} Safe (on_light m) (λ _. Safe)
  Triple-on_light m = record { ends = λ s p. go s (m s.light) p }
    where
      go :
          (s : Device N L) (o : Outcome L.Light (Unit {0}))
          → Safe s
          → Ends
              (λ _. Safe)
              (elim o as (λ _. Outcome (Device N L) (Unit {0})) [
                | done a t ↦ done a (record s { light = t })
                | aborted e t ↦ aborted e (record s { light = t })
                | fault ↦ fault
              ])
      go s (done a t) p = p
      go s (aborted e t) p = tt
      go s fault p = tt

  pub Triple-on_console :
      (m : Exec Console (Unit {0})) → Triple {S = Device N L} Safe (on_console m) (λ _. Safe)
  Triple-on_console m = record { ends = λ s p. go s (m s.console) p }
    where
      go :
          (s : Device N L) (o : Outcome Console (Unit {0}))
          → Safe s
          → Ends
              (λ _. Safe)
              (elim o as (λ _. Outcome (Device N L) (Unit {0})) [
                | done a t ↦ done a (record s { console = t })
                | aborted e t ↦ aborted e (record s { console = t })
                | fault ↦ fault
              ])
      go s (done a t) p = p
      go s (aborted e t) p = tt
      go s fault p = tt

  pub Triple-on_wifi :
      {A : Type 0} {m : Exec (WifiLib N) A} (R : A → Type 0)
      → Triple (At Single) m (λ a t. R a × At Single t)
      → Triple {S = Device N L} Safe (on_wifi m) (λ a s. R a × Safe s)
  Triple-on_wifi {A} {m} R k = record {
    ends = λ s p.
        go s (m (record (s.wifi) { store = s.flash })) p.0
          (k.ends (record (s.wifi) { store = s.flash }) p.1);
  }
    where
      go :
          (s : Device N L) (o : Outcome (WifiLib N) A)
          → IsSniffer s.app.sniffer
          → Ends (λ a t. R a × At Single t) o
          → Ends
              (λ a t. R a × Safe t)
              (elim o as (λ _. Outcome (Device N L) A) [
                | done a t ↦ done a (record s { wifi = t; flash = t.store })
                | aborted e t ↦ aborted e (record s { wifi = t; flash = t.store })
                | fault ↦ fault
              ])
      go s (done a t) p q = (q.0, (p, q.1))
      go s (aborted e t) p q = tt
      go s fault p q = tt

  pub on_wifi-Safe :
      {A : Type 0} {m : Exec (WifiLib N) A}
      → Triple (At Single) m (λ _. At Single)
      → Triple {S = Device N L} Safe (on_wifi m) (λ _. Safe)
  on_wifi-Safe {A} {m} k =
      Triple-after (Triple-on_wifi (λ _. Unit) (Triple-after k (λ a s q. (tt, q)))) (λ a s q. q.1)

  pub Triple-on_app :
      {A : Type 0} {m : Exec (App N) A}
      → Keeps IsApp m
      → Triple {S = Device N L} Safe (on_app m) (λ _. Safe)
  Triple-on_app {A} {m} k = record {
    ends = λ s p. go s (m (with_flash s)) p.1 (k.keeps (with_flash s) p.0);
  }
    where
      go :
          (s : Device N L) (o : Outcome (App N) A)
          → At Single s.wifi
          → Returns IsApp o
          → Ends
              (λ _. Safe)
              (elim o as (λ _. Outcome (Device N L) A) [
                | done a t ↦ done a (record s { app = t; flash = t.sniffer.store })
                | aborted e t ↦ aborted e (record s { app = t; flash = t.sniffer.store })
                | fault ↦ fault
              ])
      go s (done a t) p q = (q, p)
      go s (aborted e t) p q = tt
      go s fault p q = tt
