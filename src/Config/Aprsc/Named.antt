-- ===== src/Config/Aprsc/Named.antt =====
-- Every listener that the importer makes has a name (`parse_listen` of
-- crates/aprsr-config/src/aprsc.rs).
use aprsr.Prelude.{
  ℕ, zero, suc, List, [], ◌∷◌, ◌++◌, false, ◌≡◌, refl, ap, ◌∙◌, is_empty, drop, if-elim, get_elem?,
  Yields-then, Yields, yields, refuses, Yields-if, Yields-bind,
}
use aprsr.Bytes.{Bytes, codes}
use aprsr.Config.{Addresses, Listener}
use aprsr.Config.Aprsc.{Warning, arg, port_kind, protocol_of}
use aprsr.Config.Aprsc.Listen.{
  ListenOption, hidden_option, filter_option, max_clients_option, acl_option, other_option,
  apply_option, listen_option, read_options, generated_name, listener_name, parse_listen, address,
}

module _ (addresses : Addresses) where
  abbrev pub IsNamed : Listener addresses → Type 0
  IsNamed l = is_empty l.name ≡ false

  -- The option keeps the listener's name.
  apply_option-name :
      (line : ℕ) (option : Bytes) (rest : List Bytes) (l : Listener addresses) (ws : List Warning)
      (which : ListenOption)
      → Yields
          (λ (r : ℕ × Listener addresses × List Warning). r.1.name ≡ l.name)
          (apply_option addresses line option rest l ws which)
  unfolding apply_option
  apply_option-name line option rest l ws hidden_option = yields _ refl
  apply_option-name line option rest l ws filter_option = yields _ refl
  apply_option-name line option rest l ws max_clients_option =
      Yields-bind _ _ _ (λ limit. yields _ refl)
  apply_option-name line option rest l ws acl_option = yields _ refl
  apply_option-name line option rest l ws other_option = yields _ refl

  abbrev pub NamedPair : Listener addresses × List Warning → Type 0
  NamedPair r = IsNamed r.0

  read_options-NamedPair :
      (skip line : ℕ) (args : List Bytes) (l : Listener addresses) (ws : List Warning)
      → IsNamed l
      → Yields NamedPair (read_options addresses skip line args l ws)
  unfolding read_options
  read_options-NamedPair skip line [] l ws h = yields _ h
  read_options-NamedPair (suc skip) line (_ ∷ rest) l ws h =
      read_options-NamedPair skip line rest l ws h
  read_options-NamedPair zero line (option ∷ rest) l ws h =
      Yields-then _ NamedPair _ _ (apply_option-name line option rest l ws (listen_option option))
        (λ r e. read_options-NamedPair r.0 line rest r.1 r.2 (ap is_empty e ∙ h))

  not_empty : (s t : Bytes) → is_empty s ≡ false → is_empty (s ++ t) ≡ false
  not_empty [] t h = absurd (cc)
  not_empty (x ∷ s) t h = refl

  with_space : (s : Bytes) → is_empty (s ++ codes " ") ≡ false
  with_space [] = refl
  with_space (x ∷ s) = refl

  generated_name-named :
      (args : List Bytes) (bind : addresses.addr)
      → is_empty (generated_name addresses args bind) ≡ false
  unfolding generated_name
  generated_name-named args bind = search (not_empty, with_space)

  listener_name-named :
      (line : ℕ) (args : List Bytes) (bind : addresses.addr) (ws : List Warning)
      → is_empty (listener_name addresses line args bind ws).0 ≡ false
  unfolding listener_name
  listener_name-named line args bind ws =
      if-elim (λ (p : Bytes × List Warning). is_empty p.0 ≡ false) (is_empty (arg 0 args)) _ _
        (λ _. generated_name-named args bind) (λ e. e)

  pub parse_listen-NamedPair :
      (line : ℕ) (args : List Bytes) (ws : List Warning)
      → Yields NamedPair (parse_listen addresses line args ws)
  unfolding parse_listen
  parse_listen-NamedPair line args ws = Yields-if NamedPair _ _ _ (refuses _) (
      Yields-bind NamedPair (port_kind line (arg 1 args)) _ (λ kind.
        Yields-bind NamedPair (protocol_of line (arg 2 args)) _ (λ protocol.
          Yields-bind NamedPair (address addresses line (get_elem? args 3) (get_elem? args 4)) _
            (λ bind.
              read_options-NamedPair 0 line (drop 5 args) _ _
                (listener_name-named line args bind ws)))))
