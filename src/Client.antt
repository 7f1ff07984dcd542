-- ===== src/Client.antt =====
-- src/client.cpp: the interpreter of the client's command line, on a proxy. A session is the proxy
-- and what has been printed; an exception that no command catches ends it.
pub mod Calls
pub mod Making
pub mod Orders
pub mod Listing
pub mod Creating
pub mod Blank
pub mod Vacant
use kvm_cloud.Base.{
  Bool, true, false, Option, none, some, List, [], ◌∷◌, ◌++◌, Bytes, codes, get_elem?,
  if◌then◌else◌, Result, ok, err, at,
}
use kvm_cloud.Base
use kvm_cloud.Base.Exec.{Exec, pure, lift, modify, catch_all, ◌>>=◌, ◌>>◌}
use kvm_cloud.Std.Int.{ℤ}
use kvm_cloud.Std.Number.{to_string, stoi}
use kvm_cloud.Std.Text.{str_eq}
use kvm_cloud.Std.Words.{words}
use kvm_cloud.Std.Map.{StdMap, find}
use kvm_cloud.Std.Map.Keys.{bytes_order}
use kvm_cloud.Util.Helpers.{explode_address}
use kvm_cloud.Vm.Template.{Template}
use kvm_cloud.Vm.InstanceInfo.{InstanceInfo}
use kvm_cloud.Vm.Proxy
use kvm_cloud.Vm.Proxy.{Answer, Link}

-- what `help` prints
abbrev help_text : Bytes
help_text =
    codes " - templates\n       list of all available templates\n"
    ++ codes " - instances\n       list of all running VM instances\n"
    ++ codes " - new <template> <memory> <cpus>\n       create new VM using given parameters\n"
    ++ codes " - run <vm-id>\n       run VM with given id\n"
    ++ codes " - kill <vm-id>\n       kill VM with given id\n"
    ++ codes " - exit\n       exit CLI\n"

abbrev prompt : Bytes
prompt = codes "\n> "

unfoldable pub template_rows : StdMap Bytes Template → Bytes
template_rows [] = []
template_rows ((k, t) ∷ m) =
    codes " - " ++ t.name ++ codes " (" ++ t.description ++ codes ")\n" ++ template_rows m

unfoldable pub instance_rows : StdMap Bytes InstanceInfo → Bytes
instance_rows [] = []
instance_rows ((k, i) ∷ m) =
    codes " - "
    ++ i.id
    ++ codes "\t"
    ++ i.templ
    ++ codes "\t\t"
    ++ to_string i.memory
    ++ codes "\t\t"
    ++ to_string i.cpus
    ++ codes "\t\t"
    ++ (if i.running then to_string i.ssh_port else codes "  -  ")
    ++ codes "\t\t"
    ++ (if i.running then codes "ONLINE" else codes "OFFLINE")
    ++ codes "\t\n"
    ++ instance_rows m

abbrev pub created : InstanceInfo → Bytes
created i =
    codes "   result: ID: " ++ i.id ++ codes ", SSH port: " ++ to_string i.ssh_port ++ codes "\n"

-- `stoi(msg.at(i))`
abbrev number : Option Bytes → Result ℤ
number word = Base.◌>>=◌ (at word) stoi

module _ {P : Type 0} (answer : Answer P) where
  pub record Session : Type 0 where
    pub link : Link P
    pub printed : Bytes

  abbrev pub say : Bytes → Exec Session (Unit {0})
  say text = modify (λ s. record s { printed = s.printed ++ text })

  -- a call of `controller->`
  abbrev pub on_link : {A : Type 0} → Exec (Link P) A → Exec Session A
  on_link m s = let (r, l) = m s.link in (r, record s { link = l })

  unfoldable pub templates : Exec Session (Unit {0})
  unfolding template_rows
  templates = do found ← on_link (Proxy.get_templates answer); say (template_rows found)

  unfoldable pub instances : Exec Session (Unit {0})
  unfolding instance_rows
  instances = do
    say (codes "   ID\t\ttemplate\tRAM\t\tCPUs\t\tSSH port\tstatus\n")
    found ← on_link (Proxy.get_instances answer)
    say (instance_rows found)

  abbrev invalid : Exec Session (Unit {0})
  invalid = say (codes "invalid arguments\n")

  unfoldable pub create : List Bytes → Exec Session (Unit {0})
  create msg =
      catch_all
        (do
          templ ← on_link (Proxy.get_templates answer)
          name ← lift (at (get_elem? msg 1))
          chosen ← lift (at (find name templ))
          memory ← lift (number (get_elem? msg 2))
          cpus ← lift (number (get_elem? msg 3))
          inst ← on_link (Proxy.instantiate answer chosen memory cpus)
          say (created inst))
        invalid

  abbrev pub shown : Bool → Bytes
  shown result = if result then codes "OK\n" else codes "ERROR\n"

  -- `run` and `kill`, which differ in the method alone
  unfoldable pub control : (Bytes → Exec (Link P) Bool) → List Bytes → Exec Session (Unit {0})
  control method msg =
      catch_all
        (do
          full_id ← lift (at (get_elem? msg 1))
          result ← on_link (method full_id)
          say (shown result))
        invalid

  -- the branches on `msg[0]`
  unfoldable pub interpret : Bytes → List Bytes → Exec Session (Unit {0})
  unfolding templates instances create control
  interpret word msg =
      if str_eq word (codes "help")
      then say help_text
      else if str_eq word (codes "templates")
      then templates
      else if str_eq word (codes "instances")
      then instances
      else if str_eq word (codes "new")
      then create msg
      else if str_eq word (codes "run")
      then control (Proxy.run answer) msg
      else if str_eq word (codes "kill")
      then control (Proxy.kill answer) msg
      else say (codes "unknown command\n")

  -- the body of the loop, behind the test on "exit"
  unfoldable pub obey : List Bytes → Exec Session (Unit {0})
  unfolding interpret
  obey [] = say prompt
  obey (word ∷ msg) = do interpret word (word ∷ msg); say prompt

  -- the loop over the lines of the input
  unfoldable pub session : List Bytes → Exec Session (Unit {0})
  unfolding obey
  session [] = pure tt
  session (line ∷ lines) =
      let rest = session lines in
      if str_eq line (codes "exit") then pure tt else (do obey (words line); rest)

  -- The start of `main`, on the text of the address: no proxy if there is no connection.
  unfoldable pub start : (Bytes → ℤ → Option (Link P)) → Bytes → Option (Link P)
  start connect addr = elim (explode_address addr) [
    | err e ↦ none
    | ok (address, port) ↦ connect address port
  ]
