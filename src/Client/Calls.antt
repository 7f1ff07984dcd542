-- ===== src/Client/Calls.antt =====
-- What a session of src/client.cpp does: where it ends, and its calls on a node.
use kvm_cloud.Base.{
  ◌≡◌, ◌≢◌, All, refl, ap, ◌∙◌, Bool, List, [], ◌∷◌, ◌++◌, append_assoc, Bytes, codes, ok,
  if◌then◌else◌,
}
use kvm_cloud.Base.Exec.{Exec, >>=-ok, pure, ◌>>◌}
use kvm_cloud.Std.Words.{words}
use kvm_cloud.Net.Stream.Frames.{IsLine}
use kvm_cloud.Std.Text.{str_eq, str_eq_refl}
use kvm_cloud.Sys.Host.{Host}
use kvm_cloud.Vm.Controller.{Node}
use kvm_cloud.Vm.Controller.Methods
use kvm_cloud.Vm.Proxy
use kvm_cloud.Vm.Proxy.{Answer, Link}
use kvm_cloud.Controller.{Handler, answer}
use kvm_cloud.Controller.Replies.{attempt}
use kvm_cloud.Controller.Remote.{IsQuiet, Returns, get_templates-Returns, run-Returns, kill-Returns}
use kvm_cloud.Client.{Session, session, obey, interpret, templates, template_rows, control, shown}
use kvm_cloud.Vm.Template.{IsPrintable}
use kvm_cloud.Vm.Proxy.Decode.{IsByName}

module _ {P : Type 0} (answer : Answer P) where
  -- Nothing behind a line "exit" is read: the session does what it does on the lines before it.
  pub session-append_exit :
      (lines more : List Bytes)
      → session answer (lines ++ codes "exit" ∷ more) ≡ session answer lines
  unfolding session
  session-append_exit [] more =
      ap (λ b. if b then pure tt else (obey answer (words (codes "exit")) >> session answer more))
        (str_eq_refl (codes "exit"))
  session-append_exit (line ∷ lines) more =
      ap
        (λ rest. if str_eq line (codes "exit") then pure tt else (obey answer (words line) >> rest))
        (session-append_exit lines more)

module _ (h : Host) where
  -- The session went on: this was printed, and the node and the connection are left so.
  pub record Showed (m : Exec (Session (answer h)) (Unit {0})) (s : Session (answer h))
      (text : Bytes) (n : Node h) : Type 0 where
    pub after : Session (answer h)
    pub went_on : m s ≡ (ok tt, after)
    pub printed : after.printed ≡ s.printed ++ text
    pub node : after.link.peer.node ≡ n
    pub quiet : IsQuiet h after.link

  control-Showed :
      (method : Bytes → Exec (Link (Handler h)) Bool) (word text : Bytes) (more : List Bytes)
      (s : Session (answer h)) (b : Bool) (n : Node h)
      → Returns h (method text) s.link b n
      → Showed (control (answer h) method (word ∷ text ∷ more)) s (shown (answer h) b) n
  unfolding control
  control-Showed method word text more s b n r = record {
    after = record { link = r.after; printed = s.printed ++ shown (answer h) b };
    went_on = rw r.returned;
    printed = refl;
    node = r.node;
    quiet = r.quiet;
  }

  rows-Showed :
      (s : Session (answer h)) (n : Node h)
      → Returns h (Proxy.get_templates (answer h)) s.link s.link.peer.node.controller.templates n
      → Showed (templates (answer h)) s (template_rows s.link.peer.node.controller.templates) n
  unfolding templates
  rows-Showed s n r = record {
    after = record {
      link = r.after;
      printed = s.printed ++ template_rows s.link.peer.node.controller.templates;
    };
    went_on = rw r.returned;
    printed = refl;
    node = r.node;
    quiet = r.quiet;
  }

  pub obey-Showed :
      (word : Bytes) (msg : List Bytes) (s : Session (answer h)) (text : Bytes) (n : Node h)
      → Showed (interpret (answer h) word (word ∷ msg)) s text n
      → Showed (obey (answer h) (word ∷ msg)) s (text ++ codes "\n> ") n
  unfolding obey
  obey-Showed word msg s text n r = record {
    after = record { link = r.after.link; printed = r.after.printed ++ codes "\n> " };
    went_on = >>=-ok (interpret (answer h) word (word ∷ msg)) _ r.went_on;
    printed = ap (λ p. p ++ codes "\n> ") r.printed ∙ append_assoc s.printed text (codes "\n> ");
    node = r.node;
    quiet = r.quiet;
  }

  -- On a quiet connection, the client's line "run" with a non-empty text free of CR and LF prints OK
  -- if the node's method returns true on the number that the text names. It prints ERROR if that
  -- returns false or throws or the text names no `int`, and the prompt in each case. The node is
  -- left in the state of that attempt, and the connection quiet. The attempt has to end, without
  -- undefined behaviour.
  pub run-Showed :
      (text : Bytes) (more : List Bytes) (s : Session (answer h)) (b : Bool) (n : Node h)
      → IsQuiet h s.link
      → IsLine text
      → attempt h (Methods.run h) text s.link.peer.node ≡ (ok b, n)
      → Showed
          (obey (answer h) (codes "run" ∷ text ∷ more))
          s
          (shown (answer h) b ++ codes "\n> ")
          n
  unfolding interpret str_eq
  run-Showed text more s b n quiet valid e =
      obey-Showed (codes "run") (text ∷ more) s (shown (answer h) b) n (
        control-Showed (Proxy.run (answer h)) (codes "run") text more s b n
          (run-Returns h s.link text b n quiet valid e))

  -- On a quiet connection, the client's line "kill" with a non-empty text free of CR and LF prints
  -- OK if the node's method returns true on the number that the text names. It prints ERROR if that
  -- returns false or throws or the text names no `int`, and the prompt in each case. The node is
  -- left in the state of that attempt, and the connection quiet. The attempt has to end, without
  -- undefined behaviour.
  pub kill-Showed :
      (text : Bytes) (more : List Bytes) (s : Session (answer h)) (b : Bool) (n : Node h)
      → IsQuiet h s.link
      → IsLine text
      → attempt h (Methods.kill h) text s.link.peer.node ≡ (ok b, n)
      → Showed
          (obey (answer h) (codes "kill" ∷ text ∷ more))
          s
          (shown (answer h) b ++ codes "\n> ")
          n
  unfolding interpret str_eq
  kill-Showed text more s b n quiet valid e =
      obey-Showed (codes "kill") (text ∷ more) s (shown (answer h) b) n (
        control-Showed (Proxy.kill (answer h)) (codes "kill") text more s b n
          (kill-Returns h s.link text b n quiet valid e))

  -- On a quiet connection to a node that has templates, filed under their own names in the order of
  -- the names, with fields that are non-empty and free of CR and LF, the client's line "templates"
  -- prints a row for each template of the node, and the prompt. The node is left unchanged and the
  -- connection quiet.
  pub templates-Showed :
      (more : List Bytes) (s : Session (answer h))
      → IsQuiet h s.link
      → IsByName s.link.peer.node.controller.templates
      → All (λ e. IsPrintable e.1) s.link.peer.node.controller.templates
      → s.link.peer.node.controller.templates ≢ []
      → Showed
          (obey (answer h) (codes "templates" ∷ more))
          s
          (template_rows s.link.peer.node.controller.templates ++ codes "\n> ")
          s.link.peer.node
  unfolding interpret str_eq
  templates-Showed more s quiet by_name printable ne =
      obey-Showed (codes "templates") more s _ s.link.peer.node
        (rows-Showed s s.link.peer.node (get_templates-Returns h s.link quiet by_name printable ne))
