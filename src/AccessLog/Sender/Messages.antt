-- ===== src/AccessLog/Sender/Messages.antt =====
-- Sequences of messages that sendLogs of pkg/accesslog/sender/sender.go sends, and what they carry.
use skywalking_rover.Common.{
  ℕ, ◌≡◌, refl, sym, ap, ◌∙◌, Bool, false, List, [], ◌∷◌, ◌++◌, map, append-nil, append_assoc,
  Option, none, some, if◌then◌else◌,
}
use mathlib.Core.List.{map-append}
use skywalking_rover.AccessLog.Batch.{BatchLogs, ConnectionProtocolLog}
use skywalking_rover.AccessLog.Sender.{Message, Sending, is_silent}

module _ {A : Type 0} where
  -- The node is described in the first message, and in no other.
  abbrev pub only_first : Bool → List A → List Bool
  only_first first [] = []
  only_first first (x ∷ xs) = first ∷ only_first false xs

  -- Whether a message behind the others is still the first one.
  abbrev pub still_first : Bool → List A → Bool
  still_first first [] = first
  still_first first (x ∷ xs) = false

  only_first-append :
      (first : Bool) (xs ys : List A)
      → only_first first xs ++ only_first (still_first first xs) ys ≡ only_first first (xs ++ ys)
  only_first-append first [] ys = refl
  only_first-append first (x ∷ []) ys = refl
  only_first-append first (x ∷ y ∷ xs) ys =
      ap (λ l. first ∷ l) (only_first-append false (y ∷ xs) ys)

  still_first-append :
      (first : Bool) (xs ys : List A)
      → still_first (still_first first xs) ys ≡ still_first first (xs ++ ys)
  still_first-append first [] ys = refl
  still_first-append first (x ∷ xs) [] = refl
  still_first-append first (x ∷ xs) (y ∷ ys) = refl

abbrev pub name_of : Option ℕ → List ℕ
name_of none = []
name_of (some c) = c ∷ []

module _ {K P : Type 0} where
  -- What the messages of a batch carry, in order.
  abbrev pub protocol_bodies : List (ConnectionProtocolLog K P) → List (List K × Option P)
  protocol_bodies [] = []
  protocol_bodies (p ∷ ps) = (p.kernels, some p.protocol) ∷ protocol_bodies ps

  abbrev pub kernel_bodies : List K → List (List K × Option P)
  kernel_bodies [] = []
  kernel_bodies (k ∷ ks) = (k ∷ ks, none) ∷ []

  abbrev pub bodies : BatchLogs K P → List (List K × Option P)
  bodies [] = []
  bodies (e ∷ es) = kernel_bodies e.logs.kernels ++ (protocol_bodies e.logs.protocols ++ bodies es)

  abbrev pub body : Message K P → List K × Option P
  body m = (m.kernel_logs, m.protocol_log)

  -- The connections that have something to send.
  unfoldable pub speaking : BatchLogs K P → List ℕ
  unfolding is_silent
  speaking [] = []
  speaking (e ∷ es) =
      if is_silent e.logs.kernels e.logs.protocols then speaking es else e.connection ∷ speaking es

  abbrev pub named : List (Message K P) → List ℕ
  named [] = []
  named (m ∷ ms) = name_of m.connection ++ named ms

  abbrev pub nodes : List (Message K P) → List Bool
  nodes = map (λ (m : Message K P). m.node)

  -- The one name that a connection's messages give.
  abbrev pub named_once : Bool → ℕ → List (List K × Option P) → List ℕ
  named_once first c [] = []
  named_once first c (b ∷ bs) = if first then c ∷ [] else []

  pub named_once-later : (c : ℕ) (bs : List (List K × Option P)) → named_once false c bs ≡ []
  named_once-later c [] = refl
  named_once-later c (b ∷ bs) = refl

  named-append : (ms ns : List (Message K P)) → named (ms ++ ns) ≡ named ms ++ named ns
  named-append [] ns = refl
  named-append (m ∷ ms) ns =
      ap (λ l. name_of m.connection ++ l) (named-append ms ns)
      ∙ sym (append_assoc (name_of m.connection) (named ms) (named ns))

  -- What a loop adds to what was sent before.
  pub record Sends (s s' : Sending K P) (bs : List (List K × Option P)) (names : List ℕ)
      : Type 0 where
    pub messages : List (Message K P)
    pub adds : s'.sent ≡ s.sent ++ messages
    pub carries : map body messages ≡ bs
    pub names_all : named messages ≡ names
    pub describes : nodes messages ≡ only_first s.first_log bs
    pub leaves : s'.first_log ≡ still_first s.first_log bs
    pub no_error : s'.send_error ≡ false

  pub Sends-refl : (s : Sending K P) → s.send_error ≡ false → Sends s s [] []
  Sends-refl s n = record {
    messages = [];
    adds = sym (append-nil s.sent);
    carries = refl;
    names_all = refl;
    describes = refl;
    leaves = refl;
    no_error = n;
  }

  pub Sends-trans :
      (s t u : Sending K P) (bs cs : List (List K × Option P)) (ns ms : List ℕ)
      → Sends s t bs ns
      → Sends t u cs ms
      → Sends s u (bs ++ cs) (ns ++ ms)
  Sends-trans s t u bs cs ns ms a b = record {
    messages = a.messages ++ b.messages;
    adds = b.adds ∙ ap (λ l. l ++ b.messages) a.adds ∙ append_assoc s.sent a.messages b.messages;
    carries =
        map-append _ a.messages b.messages
        ∙ ap (λ l. l ++ map body b.messages) a.carries
        ∙ ap (λ l. bs ++ l) b.carries;
    names_all =
        named-append a.messages b.messages
        ∙ ap (λ l. l ++ named b.messages) a.names_all
        ∙ ap (λ l. ns ++ l) b.names_all;
    describes =
        map-append _ a.messages b.messages
        ∙ ap (λ l. l ++ nodes b.messages) a.describes
        ∙ ap (λ l. only_first s.first_log bs ++ l)
            (b.describes ∙ ap (λ f. only_first f cs) a.leaves)
        ∙ only_first-append s.first_log bs cs;
    leaves = b.leaves ∙ ap (λ f. still_first f cs) a.leaves ∙ still_first-append s.first_log bs cs;
    no_error = b.no_error;
  }
