-- ===== src/WsCallbacks/Faults.antt =====
-- `csvAnalizeCallback` of net/websockets/WsServer.cpp: which tables end the server.
use boost_server_example.Base.{
  ℕ, suc, ◌^◌, ◌≤◌, ◌<◌, ◌≡◌, refl, Bool, true, false, List, [], ◌∷◌, Bytes, length, get_elem?-lt,
  arith,
}
use boost_server_example.Base.Result.{ok, err, Fault, thrown, terminated}
use boost_server_example.Csv.{Csv, Row}
use boost_server_example.Csv.Access.{get_at}
use boost_server_example.Csv.Load.{load_from_memory-eq-table}
use boost_server_example.Csv.Parse.{of_rows}
use boost_server_example.Csv.Table.{table, fields_fit}
use boost_server_example.WsCallbacks.{Dates, analize_row, analize_rows, csv_analize_message}
use boost_server_example.WsSession.{WsSession}
use boost_server_example.WsCallbacks.Answer.{get_at-row}

get_at-wide :
    (first : Row) (others : List Row) (i j : ℕ)
    → i < length (first ∷ others)
    → length first ≤ j
    → get_at (of_rows b',' (first ∷ others)) i j ≡ err terminated
unfolding get_at
get_at-wide first others i j below beyond =
    let (r, e) = get_elem?-lt (first ∷ others) i below in ground (arith, e)

module _ {Time : Type 0} (dates : Dates Time) where
  open dates use {epoch, later, date_time_from_str, is_double}

  analize_rows-fault :
      (csv : Csv) (n i : ℕ) (max_date : Time) {fault : Fault}
      → analize_row dates csv i max_date ≡ err fault
      → analize_rows dates csv (suc n) i max_date ≡ err fault
  unfolding analize_rows
  analize_rows-fault csv n i max_date e = rw e refl

  one_field :
      (date : Bytes) (t : Time) (rest : List Row)
      → date_time_from_str date ≡ ok t
      → later t epoch ≡ true
      → analize_row dates (of_rows b',' ((date ∷ []) ∷ rest)) 0 epoch ≡ err terminated
  unfolding analize_row
  one_field date t rest dt newer =
      rw
        (
          get_at-row (date ∷ []) (date ∷ []) rest date 0 0 (omega arith) refl (omega arith) refl,
          dt,
          newer,
          get_at-wide (date ∷ []) rest 0 1 (omega arith) (omega arith),
        )
        refl

  no_number :
      (date a b : Bytes) (t : Time) (rest : List Row)
      → date_time_from_str date ≡ ok t
      → later t epoch ≡ true
      → is_double a ≡ false
      → analize_row dates (of_rows b',' ((date ∷ a ∷ b ∷ []) ∷ rest)) 0 epoch ≡ err thrown
  unfolding analize_row
  no_number date a b t rest dt newer bad =
      let row : Row = date ∷ a ∷ b ∷ [] in
      rw
        (
          get_at-row row row rest date 0 0 (omega arith) refl (omega arith) refl,
          dt,
          newer,
          get_at-row row row rest a 0 1 (omega arith) refl (omega arith) refl,
          bad,
        )
        refl

  far_date :
      (date : Bytes) (more : Row) (rest : List Row) (fault : Fault)
      → date_time_from_str date ≡ err fault
      → analize_row dates (of_rows b',' ((date ∷ more) ∷ rest)) 0 epoch ≡ err fault
  unfolding analize_row
  far_date date more rest fault bad =
      rw
        (
          get_at-row (date ∷ more) (date ∷ more) rest date 0 0 (omega arith) refl (omega arith)
              refl,
          bad,
        )
        refl

  -- Let the text of a message, behind its first byte, be shorter than 2^31 bytes and have no field of
  -- more than 1024. If the first row is one field, a date later than the epoch, the callback runs into
  -- `throw;` with no exception in flight, which calls `std::terminate`; if it is such a date, a text
  -- that is no number and a third field, an exception leaves the callback; if it starts with a date
  -- whose reading faults, the callback faults.
  pub csv_analize_message-faults :
      (fuel : ℕ) (is_open : Bool) (s : WsSession) (c : ℕ) (text date a b far : Bytes) (more : Row)
      (rest : List Row) (t : Time) (fault : Fault)
      → length text < 2 ^ 31
      → length text < fuel
      → fields_fit b',' text ≡ true
      → date_time_from_str date ≡ ok t
      → later t epoch ≡ true
      → (table b',' text ≡ (date ∷ []) ∷ rest
          → csv_analize_message dates fuel is_open s (c ∷ text) ≡ err terminated)
        × (table b',' text ≡ (date ∷ a ∷ b ∷ []) ∷ rest
            → is_double a ≡ false
            → csv_analize_message dates fuel is_open s (c ∷ text) ≡ err thrown)
        × (table b',' text ≡ (far ∷ more) ∷ rest
            → date_time_from_str far ≡ err fault
            → csv_analize_message dates fuel is_open s (c ∷ text) ≡ err fault)
  unfolding csv_analize_message
  csv_analize_message-faults fuel is_open s c text date a b far more rest t fault small enough fit
        dt newer =
      (
        λ e.
            rw
              (
                load_from_memory-eq-table fuel b',' text refl small enough,
                fit,
                e,
                analize_rows-fault (of_rows b',' ((date ∷ []) ∷ rest)) (length rest) 0 epoch
                    (one_field date t rest dt newer),
              )
              refl,
        λ e bad.
            rw
              (
                load_from_memory-eq-table fuel b',' text refl small enough,
                fit,
                e,
                analize_rows-fault (of_rows b',' ((date ∷ a ∷ b ∷ []) ∷ rest)) (length rest) 0 epoch
                    (no_number date a b t rest dt newer bad),
              )
              refl,
        λ e bad.
            rw
              (
                load_from_memory-eq-table fuel b',' text refl small enough,
                fit,
                e,
                analize_rows-fault (of_rows b',' ((far ∷ more) ∷ rest)) (length rest) 0 epoch
                    (far_date far more rest fault bad),
              )
              refl,
      )
